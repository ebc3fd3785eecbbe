-- ===== src/Resolve/Settled.antt =====
-- `UpVersions` of internal/gooseutil/resolve.go on databases with the same versions in any order.
use pressly_goose_patches.Base.{◌≡◌, refl, sym, Bool, ◌||◌, List, [], ◌∷◌, ◌++◌, All, ◌∙◌}
use pressly_goose_patches.Int.{ℤ}
use pressly_goose_patches.Resolve.{ok, sort, up_versions}
use pressly_goose_patches.Resolve.Spec.{mem, is_pending, pending, IsPositive}
use pressly_goose_patches.Resolve.Pending.{
  out-eq-pending, out_of_order_nil, mem-append, up_versions_lem, up_versions_settled,
}

pending-mem :
    (a b : List ℤ) (target : ℤ) (vs : List ℤ)
    → ((v : ℤ) → mem v a ≡ mem v b)
    → pending a target vs ≡ pending b target vs
unfolding pending is_pending
pending-mem a b target [] h = refl
pending-mem a b target (v ∷ vs) h = rw (h v, pending-mem a b target vs h) refl

-- With the returned versions in the database, in whatever order, nothing is left to apply.
pub settled_by :
    (fsys db db' : List ℤ) (target : ℤ) (allow_missing : Bool) (out : List ℤ)
    → All IsPositive fsys
    → up_versions fsys db target allow_missing ≡ ok out
    → ((v : ℤ) → mem v db' ≡ (mem v out || mem v db))
    → (again : Bool) → up_versions fsys db' target again ≡ ok []
settled_by fsys db db' target allow out p e h again =
    let all = sort fsys in
    let none_left =
      pending-mem db' (out ++ db) target all (λ v. h v ∙ sym (mem-append v out db))
      ∙ sym (
          out-eq-pending fsys (out ++ db) target again [] p
            (up_versions_settled fsys db target allow out p e again)) in
    rw
      (
        up_versions_lem fsys db' target again p,
        none_left,
        out_of_order_nil db' target all none_left,
      )
      refl
