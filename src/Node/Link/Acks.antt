-- ===== src/Node/Link/Acks.antt =====
-- The perfect link of src/plink.c: acknowledgements, and messages that come again.
use distributed_process.Base.{
  ℕ, ◌≡◌, ◌≢◌, ◌∙◌, sym, ap, inl, inr, false, List, ◌==◌, Bool-cases, arith, Outcome, done, err,
  fault, hang, and_then-done, and_then-step, and_then-return, subst, put_back, put_back-done, Env,
}
use distributed_process.Table.{is_ack, is_delivered}
use distributed_process.Table.Growth.{IsValid, value}
use distributed_process.Table.Acks.{IsFree, is_ack_lem, is_delivered_lem}
use distributed_process.AddrBook.{get_addr}
use distributed_process.Message.{UrbMsg, Msg, serialize}
use distributed_process.Node.{NetData, in_acks, in_book, in_delivered}
use distributed_process.Node.Link.{
  ack_of, send_datagram, send_message, send_fl, deliver_once, deliver_pl, send_rounds, send_pl,
}

module _ {A : Type 0} (env : Env) where
  -- A message that is acknowledged is not sent.
  pub send_pl-acked :
      (meanwhile : ℕ → NetData A → NetData A) (pid : ℕ) (m : Msg) (d : NetData A)
      → IsFree d.pl_acks
      → value d.pl_acks.table m.ackid ≢ 0
      → send_pl env meanwhile pid m d ≡ done false d
  unfolding send_pl send_rounds
  send_pl-acked meanwhile pid m d v acked =
      let other : (value d.pl_acks.table m.ackid == 0) ≡ false = ground arith in
      and_then-step (in_acks (is_ack m.ackid) d) _
        (ap (put_back (λ t. record d { pl_acks = t })) (is_ack_lem d.pl_acks m.ackid v))
      ∙ rw other

  -- Sending does not touch the table of delivered messages.
  send_datagram-kept :
      (address : A) (buffer : List ℕ) (d d' : NetData A)
      → send_datagram env address buffer d ≡ done tt d'
      → d'.pl_delivered ≡ d.pl_delivered
  unfolding send_datagram
  send_datagram-kept address buffer d d' h = elim (Bool-cases env.sends) [
    | inl yes' ↦ let h' = rw yes' at h in cc
    | inr no' ↦ let h' = rw no' at h in cc
  ]

  sent-kept :
      (address : A) (d d' : NetData A) (o : Outcome Msg (List ℕ))
      → (elim o [
        | done buffer _ ↦ send_datagram env address buffer d
        | err e _ ↦ err e d
        | fault ↦ fault
        | hang ↦ hang
      ])
        ≡ done tt d'
      → d'.pl_delivered ≡ d.pl_delivered
  sent-kept address d d' (done buffer m) h = send_datagram-kept address buffer d d' h
  sent-kept address d d' (err e m) h = cc
  sent-kept address d d' fault h = cc
  sent-kept address d d' hang h = cc

  send_fl-kept :
      (pid : ℕ) (m : Msg) (d d' : NetData A)
      → send_fl env pid m d ≡ done tt d'
      → d'.pl_delivered ≡ d.pl_delivered
  unfolding send_fl send_message
  send_fl-kept pid m d d' h =
      let (address, d1, a, h1) = and_then-done (in_book (get_addr pid) d) _ h in
      let (book, b, same) =
        put_back-done (λ b. record d { address_book = b }) (get_addr pid d.address_book) a in
      sent-kept address d1 d' (serialize env d1.num_proc m) h1
      ∙ ap (λ (x : NetData A). x.pl_delivered) same

  deliver_once-again :
      (fuel : ℕ) (m : Msg) (d : NetData A)
      → IsValid d.pl_delivered
      → value d.pl_delivered m.mid ≢ 0
      → deliver_once fuel env m d ≡ done tt d
  unfolding deliver_once
  deliver_once-again fuel m d v before =
      let other : (value d.pl_delivered m.mid == 0) ≡ false = ground arith in
      and_then-step (in_delivered (is_delivered m.mid) d) _
        (ap (put_back (λ t. record d { pl_delivered = t })) (is_delivered_lem m.mid v))
      ∙ rw other

  -- A message that is no acknowledgement and that the valid table of delivered messages has is
  -- acknowledged again, and nothing else: what `deliver_pl` does is what `send_fl` does with the
  -- acknowledgement, an error included.
  pub deliver_pl-again :
      (fuel : ℕ) (rest : UrbMsg) (m : Msg) (d : NetData A)
      → IsValid d.pl_delivered
      → m.mtype ≢ 1
      → value d.pl_delivered m.mid ≢ 0
      → deliver_pl fuel env rest m d ≡ send_fl env m.sender (ack_of d.self_pid rest m) d
  unfolding deliver_pl
  deliver_pl-again fuel rest m d v ordinary before =
      let plain : (m.mtype == 1) ≡ false = ground arith in
      rw plain (
        and_then-return (send_fl env m.sender (ack_of d.self_pid rest m) d) _ (λ d' e.
          let kept = send_fl-kept m.sender (ack_of d.self_pid rest m) d d' e in
          deliver_once-again fuel m d' (subst IsValid (sym kept) v)
            (subst (λ t. value t m.mid ≢ 0) (sym kept) before)))
