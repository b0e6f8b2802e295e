-- ===== src/Node/Parser/Boot.antt =====
-- From the membership file to the first delivery: src/parser.c, then the set-up of src/da_proc.c,
-- then `deliver_lcb` of src/lcb.c.
use distributed_process.Base.{
  ℕ, suc, ◌-◌, ◌^◌, ◌≤◌, ◌<◌, ◌≡◌, ◌∙◌, sym, ap, subst, true, false, Option, some, List, [], ◌∷◌,
  length, replicate, length-replicate, get_or-replicate, arith, done, and_then-step, ◌>>◌, Env,
}
use distributed_process.Log.{decimal}
use distributed_process.Log.Written.{WritesAll}
use distributed_process.Message.{LcbMsg}
use distributed_process.Node.{NetData}
use distributed_process.Node.Clock.Deliverable.{All, InRange, entry, pids_of}
use distributed_process.Node.Causal.{deliver_lcb}
use distributed_process.Node.Start.{init_parts}
use distributed_process.Node.Start.Parts.{IsSmall}
use distributed_process.Node.Start.Ready.{HasDelivered, first_delivery}
use distributed_process.Node.Parser.{parse_membership_args}
use distributed_process.Node.Parser.Rendered.{Membership, membership_text, IsMembership}
use distributed_process.Node.Parser.Configured.{parse_membership_args-Parsed}

All-replicate : (n : ℕ) (ps : List ℕ) → All (λ p. entry (replicate n 0) p ≤ 0) ps
All-replicate n [] = tt
All-replicate n (p ∷ ps) = (omega (arith, get_or-replicate {A = ℕ} n (p - 1) 0), All-replicate n ps)

-- For a well-formed file of processes whose tables' sizes are an `unsigned int`, an id of one digit
-- and a number of messages of at most 31 bits, with every call of the system granted and the log's
-- mutex free: the parser, the set-up, and the delivery of a message whose clock is 0 everywhere,
-- from one of the processes of the file below 100, return 0, and leave a count of one for its
-- sender, none for the others, and one line in the log.
pub boot_first_delivery :
    {A B : Type 0} (blank : A) (aton : List ℕ → Option B) (address_of : B → ℕ → A) (env : Env)
    (grants : (k : ℕ) → env.grants k ≡ true) (n : ℕ) (m : Membership B)
    → IsMembership aton n m
    → (d : NetData A) (name path : List ℕ) (more : List (List ℕ)) (self num fuel : ℕ) (msg : LcbMsg)
    → 0 < self
    → self < 10
    → 0 < num
    → num < 2 ^ 31
    → env.mutexes ≡ true
    → WritesAll env
    → IsSmall n
    → d.logdata.locked ≡ false
    → InRange n msg.original_sender
    → msg.original_sender < 100
    → msg.vec_clock.vector ≡ replicate n 0
    → (d' : NetData A) × ((parse_membership_args blank aton address_of env
              (name ∷ decimal self ∷ path ∷ decimal num ∷ more)
              (some (membership_text m))
            >> (init_parts env true >> deliver_lcb (suc fuel) env msg))
          d
        ≡ done tt d')
      × HasDelivered msg.original_sender d'
boot_first_delivery blank aton address_of env grants n m w d name path more self num fuel msg pos
      one n_pos n_small mutexes all s free real small zero_clock =
    let (d', e, p) =
      parse_membership_args-Parsed blank aton address_of env grants n m w d name path more self num
        pos (omega arith) n_pos n_small in
    let size : n ≡ d'.num_proc = sym (p.num_proc ∙ w.addressed) in
    let (d'', e', h) =
      first_delivery env fuel d' msg grants mutexes all (subst IsSmall size s) p.configured
        (omega (arith, p.self_pid)) (ap (λ t. t.logdata.locked) p.kept ∙ free)
        (subst (λ k. InRange k msg.original_sender) size real) small
        (ap length zero_clock ∙ length-replicate n 0 ∙ size)
        (subst (λ v. All (λ p. entry v p ≤ 0) (pids_of p.configured.matrix msg.original_sender))
          (sym zero_clock) (All-replicate n (pids_of p.configured.matrix msg.original_sender))) in
    (d'', and_then-step _ _ e ∙ e', h)
