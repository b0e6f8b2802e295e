-- ===== src/UrbTable/Keep.antt =====
-- What the two writes of flags of src/urb.c change where they return, for every id.
use native.Mathlib.Decide.{dec_lt}
use distributed_process.Base.{
  ℕ, ◌*◌, ◌≡◌, refl, sym, ap, subst, inl, inr, true, ltb, ◌==◌, Bool-cases, u32, arith, error_table,
  done, err, Ends, Ends-done, Ends-map, Ok, Env,
}
use distributed_process.UrbTable.{UrbEntry, UrbTable, max_size_urb, add_seen_urb, add_delivered_urb}
use distributed_process.UrbTable.Flags.{
  IsValid, Changed, Flag, raise_flag, flags, as_seen, as_delivered, add, add_inside, add_outside,
}

add-large :
    (flag : Flag) (env : Env) (i : ℕ) (t : UrbTable)
    → ltb max_size_urb i ≡ true
    → add flag env i t ≡ err error_table t
unfolding add_seen_urb add_delivered_urb
add-large as_seen env i t large = rw large
add-large as_delivered env i t large = rw large

pub add-Changed :
    (flag : Flag) (env : Env) (i : ℕ) (t : UrbTable)
    → IsValid t
    → Ends (λ u t'. Changed t i (raise_flag flag) t') (add flag env i t)
add-Changed flag env i t v =
    let Q : Ok → UrbTable → Type 0 = λ u t'. Changed t i (raise_flag flag) t' in
    elim (Bool-cases (ltb max_size_urb i)) [
      | inl large ↦ subst (Ends Q) (sym (add-large flag env i t large)) tt
      | inr small ↦ elim (dec_lt i t.total_entries) [
        | yes inside ↦
            let (t', e, c) = add_inside flag env t i v inside (ground arith) in
            subst (Ends Q) (sym e) c
        | no past ↦
            subst (Ends Q) (sym (add_outside flag env t i v (omega arith)))
              (elim (Bool-cases (env.grants (u32 (t.total_entries * 2)))) [
                | inl granted ↦ rw (small, granted) tt
                | inr refused ↦ rw (small, refused) tt
              ])
      ]
    ]

delivered-raise_flag :
    (flag : Flag) (e : UrbEntry) → e.delivered ≡ 1 → (raise_flag flag e).delivered ≡ 1
delivered-raise_flag as_seen e h = h
delivered-raise_flag as_delivered e h = refl

-- How a flag of a delivery follows from those before.
delivered-Changed :
    (flag : Flag) (i j : ℕ) (P : ℕ → Type 0) (t t' : UrbTable)
    → Changed t i (raise_flag flag) t'
    → P (flags t j).delivered
    → (P (flags t i).delivered → P (raise_flag flag (flags t i)).delivered)
    → P (flags t' j).delivered
delivered-Changed flag i j P t t' c p step = elim (Bool-cases (j == i)) [
  | inl eq ↦
      let same : j ≡ i = ground arith in
      subst (λ k. P (flags t' k).delivered) (sym same)
        (subst (λ (e : UrbEntry). P e.delivered) (sym c.here)
          (step (subst (λ k. P (flags t k).delivered) same p)))
  | inr ne ↦ subst (λ (e : UrbEntry). P e.delivered) (sym (c.elsewhere j (ground arith))) p
]

-- A valid table that has message `i` as delivered.
abbrev pub Flagged : ℕ → UrbTable → Type 0
Flagged i t = IsValid t × ((flags t i).delivered ≡ 1)

pub add-Flagged :
    (flag : Flag) (env : Env) (i j : ℕ) (t : UrbTable)
    → Flagged i t
    → Ends (λ u t'. Flagged i t') (add flag env j t)
add-Flagged flag env i j t (v, h) =
    Ends-map _ (λ u t'. Flagged i t') _
      (λ u t' c. (
        c.valid,
        delivered-Changed flag j i (λ x. x ≡ 1) t t' c h (delivered-raise_flag flag (flags t j)),
      ))
      (add-Changed flag env j t v)

-- Where a delivery is marked, it is marked.
pub add_delivered-Flagged :
    (env : Env) (i : ℕ) (t : UrbTable)
    → IsValid t
    → Ends (λ u t'. Flagged i t') (add_delivered_urb env i t)
add_delivered-Flagged env i t v =
    Ends-map _ (λ u t'. Flagged i t') _
      (λ u t' c. (c.valid, ap (λ (e : UrbEntry). e.delivered) c.here))
      (add-Changed as_delivered env i t v)

pub add_seen-kept :
    (env : Env) (i j : ℕ) (t t' : UrbTable)
    → IsValid t
    → add_seen_urb env i t ≡ done tt t'
    → IsValid t' × ((flags t' j).delivered ≡ (flags t j).delivered)
add_seen-kept env i j t t' v h =
    let c = Ends-done _ (add_seen_urb env i t) (add-Changed as_seen env i t v) h in
    (c.valid, delivered-Changed as_seen i j (λ x. x ≡ (flags t j).delivered) t t' c refl (λ p. p))
