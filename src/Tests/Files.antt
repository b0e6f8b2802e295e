-- ===== src/Tests/Files.antt =====
-- A membership file of two processes: `inet_aton` accepts every word and gives it back, and an
-- address is such a word with a port.
use distributed_process.Base.{
  ℕ, ◌≡◌, refl, true, false, Option, none, some, List, [], ◌∷◌, arith, done, ◌>>◌,
}
use distributed_process.Log.{digits, decimal}
use distributed_process.Message.{LcbMsg}
use distributed_process.Node.{NetData}
use distributed_process.Node.Causal.{deliver_lcb}
use distributed_process.Node.Start.{init_parts}
use distributed_process.Node.Start.Ready.{HasDelivered}
use distributed_process.Node.Parser.{parse_membership_args}
use distributed_process.Node.Parser.Rendered.{Membership, membership_text, IsMembership}
use distributed_process.Node.Parser.Configured.{Parsed, parse_membership_args-Parsed}
use distributed_process.Node.Parser.Accepted.{IsAccepted, parse_membership_args-IsAccepted}
use distributed_process.Node.Parser.RoundTrip.{parse_membership_args-exact}
use distributed_process.Node.Parser.Boot.{boot_first_delivery}
use distributed_process.Tests.Samples.{generous}

-- `1 a 80`, `2 b 90`; `1 2`, `2`.
abbrev pub file : Membership (List ℕ)
file = record {
  addresses =
      record { pid = 1; ip = b'a' ∷ []; ipv4 = b'a' ∷ []; port = 80 }
      ∷ record { pid = 2; ip = b'b' ∷ []; ipv4 = b'b' ∷ []; port = 90 }
      ∷ [];
  matrix = record { source = 1; deps = 2 ∷ [] } ∷ record { source = 2; deps = [] } ∷ [];
}

-- A process whose parts are all empty.
abbrev pub unset : NetData (List ℕ)
unset = record {
  address_book = none;
  self_pid = 0;
  num_proc = 0;
  num_msg = 0;
  pl_acks = record {
    table = record { no_msgs = 0; no_process = 0; total_entries = 0; entries = [] };
    locked = false;
  };
  pl_delivered = record { no_msgs = 0; no_process = 0; total_entries = 0; entries = [] };
  task_q = record { no_elem = 0; qsize = 0; front = 0; back = 0; elems = []; locked = false };
  pending = record { bol = []; no_msgs = 0; no_process = 0; total_entries = 0 };
  next = record { no_process = 0; entries = [] };
  urb_table = record { values = []; no_msgs = 0; no_process = 0; total_entries = 0 };
  urbacks = record { no_msgs = 0; no_process = 0; total_entries = 0; entries = [] };
  logdata = record {
    file = [];
    buffer = [];
    buf_current_size = 0;
    buf_max_size = 0;
    locked = false;
  };
  dependencies = none;
  lcb_pending = record { num_proc = 0; lists = []; heap = λ p. none };
  vector_clock = record { num_proc = 0; vector = [] };
  clock_locked = false;
  wire = [];
}

-- What the file makes of it.
abbrev parsed : NetData (List ℕ)
parsed = record unset {
  self_pid = 1;
  num_msg = 5;
  num_proc = 2;
  address_book =
      some (record { num_proc = 2; addresses = (80 ∷ b'a' ∷ []) ∷ (90 ∷ b'b' ∷ []) ∷ [] });
  dependencies = some (record {
    dep_lists =
        record { pid_list = some (2 ∷ []); list_len = 1 }
        ∷ record { pid_list = none; list_len = 0 }
        ∷ [];
    num_proc = 2;
  });
}

abbrev pub aton : List ℕ → Option (List ℕ)
aton = some

abbrev pub address_of : List ℕ → ℕ → List ℕ
address_of ip port = port ∷ ip

pub file-IsMembership : IsMembership aton 2 file
unfolding decimal digits
file-IsMembership = record {
  positive = omega arith;
  narrow = omega arith;
  addressed = refl;
  listed = refl;
  addresses = (
    record {
      fits = record {
        lines = (refl, (refl, (refl, (refl, (refl, (refl, tt))))));
        nuls = (refl, (refl, (refl, (refl, (refl, (refl, tt))))));
        short = omega arith;
      };
      real = (omega arith, omega arith);
      word = (refl, tt);
      filled = λ e. cc;
      accepted = refl;
      narrow = omega arith;
    },
    (
      record {
        fits = record {
          lines = (refl, (refl, (refl, (refl, (refl, (refl, tt))))));
          nuls = (refl, (refl, (refl, (refl, (refl, (refl, tt))))));
          short = omega arith;
        };
        real = (omega arith, omega arith);
        word = (refl, tt);
        filled = λ e. cc;
        accepted = refl;
        narrow = omega arith;
      },
      tt,
    ),
  );
  matrix = (
    record {
      fits = record {
        lines = (refl, (refl, (refl, tt)));
        nuls = (refl, (refl, (refl, tt)));
        short = omega arith;
      };
      real = (omega arith, omega arith);
      ids = ((omega arith, omega arith), tt);
      few = omega arith;
    },
    (
      record {
        fits = record { lines = (refl, tt); nuls = (refl, tt); short = omega arith };
        real = (omega arith, omega arith);
        ids = tt;
        few = omega arith;
      },
      tt,
    ),
  );
  owners = ((λ e. omega (arith, e), tt), (tt, tt));
  sources = ((λ e. omega (arith, e), tt), (tt, tt));
}

parse_membership_args-Parsed_example :
    (d' : NetData (List ℕ)) × (parse_membership_args [] aton address_of generous
        ([] ∷ decimal 1 ∷ [] ∷ decimal 5 ∷ [])
        (some (membership_text file))
        unset
      ≡ done tt d')
    × Parsed address_of file 1 5 unset d'
parse_membership_args-Parsed_example =
    parse_membership_args-Parsed [] aton address_of generous (λ k. refl) 2 file file-IsMembership
      unset [] [] [] 1 5 (omega arith) (omega arith) (omega arith) (omega arith)

abbrev zero_msg : LcbMsg
zero_msg = record { vec_clock = record { num_proc = 2; vector = 0 ∷ 0 ∷ [] }; original_sender = 2 }

boot_first_delivery_example :
    (d' : NetData (List ℕ)) × ((parse_membership_args [] aton address_of generous
            ([] ∷ decimal 1 ∷ [] ∷ decimal 5 ∷ [])
            (some (membership_text file))
          >> (init_parts generous true >> deliver_lcb 9 generous zero_msg))
        unset
      ≡ done tt d')
    × HasDelivered 2 d'
boot_first_delivery_example =
    boot_first_delivery [] aton address_of generous (λ k. refl) 2 file file-IsMembership unset [] []
      [] 1 5 8 zero_msg (omega arith) (omega arith) (omega arith) (omega arith) refl (λ n. refl)
      (record { positive = omega arith; narrow = omega arith }) refl (omega arith, omega arith)
      (omega arith) refl

file-parsed :
    parse_membership_args [] aton address_of generous
      ([] ∷ decimal 1 ∷ [] ∷ decimal 5 ∷ [])
      (some (membership_text file))
      unset
    ≡ done tt parsed
file-parsed =
    parse_membership_args-exact [] aton address_of generous (λ k. refl) 2 file file-IsMembership
      unset [] [] [] 1 5 (omega arith) (omega arith) (omega arith) (omega arith)

parse_membership_args-IsAccepted_example : IsAccepted unset parsed
parse_membership_args-IsAccepted_example =
    parse_membership_args-IsAccepted [] aton address_of generous
      ([] ∷ decimal 1 ∷ [] ∷ decimal 5 ∷ []) (some (membership_text file)) unset parsed file-parsed
