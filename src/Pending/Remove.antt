-- ===== src/Pending/Remove.antt =====
-- `remove_veclist` of src/pending.c, at the null pointer.
use distributed_process.Base.{
  ℕ, ◌≡◌, ◌≢◌, refl, subst, inl, inr, get_elem?, Option-cases, done, err, error_pointer,
}
use distributed_process.Pending.{Ptr, Chain, LcbPending, in_list, remove_veclist}

-- The null pointer is refused.
pub remove_veclist-null : (c : Chain) → remove_veclist 0 c ≡ err error_pointer c
unfolding remove_veclist
remove_veclist-null c = refl

in_list-null : (i : ℕ) (p p' : LcbPending) → in_list i (remove_veclist 0) p ≢ done tt p'
in_list-null i p p' h = elim (Option-cases (get_elem? p.lists i)) [
  | inl nothing ↦ let h' = rw (nothing, in_list) at h in cc
  | inr (l, found) ↦ let h' = rw (found, in_list, remove_veclist-null) at h in cc
]

-- So a removal that returns 0 was of a node.
pub remove-ne-null :
    (i : ℕ) (q : Ptr) (p p' : LcbPending) → in_list i (remove_veclist q) p ≡ done tt p' → q ≢ 0
remove-ne-null i q p p' h e =
    in_list-null i p p' (subst (λ k. in_list i (remove_veclist k) p ≡ done tt p') e h)
