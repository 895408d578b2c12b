-- ===== src/Windows/Csq/Matching.antt =====
-- windows/xenv4v/csq.c: the IRPs of the queue that a search matches, in their order.
use legacy_v4v.Prelude.{
  ◌≡◌, refl, sym, ap, ◌∙◌, inl, inr, List, [], ◌∷◌, ◌++◌, if◌then◌else◌, Bool-cases,
}
use legacy_v4v.Windows.Csq.{Irp, Qpeek, Extension, peek_test}
use legacy_v4v.Windows.Csq.Queued.{Unmatched}
use legacy_v4v.Windows.Csq.Remove.{Removed}

abbrev pub matching : Qpeek → List Irp → List Irp
matching qp [] = []
matching qp (x ∷ xs) = let rest = matching qp xs in if peek_test x qp then x ∷ rest else rest

matching-append :
    (qp : Qpeek) (xs ys : List Irp) → matching qp (xs ++ ys) ≡ matching qp xs ++ matching qp ys
matching-append qp [] ys = refl
matching-append qp (x ∷ xs) ys = elim (Bool-cases (peek_test x qp)) [
  | inl e ↦ rw e (ap (◌∷◌ x) (matching-append qp xs ys))
  | inr e ↦ rw e (matching-append qp xs ys)
]

-- Where the search finds nothing
pub matching-Unmatched : (qp : Qpeek) (q : List Irp) → Unmatched qp q → matching qp q ≡ []
matching-Unmatched qp [] h = refl
matching-Unmatched qp (x ∷ xs) (h, hs) = rw h (matching-Unmatched qp xs hs)

-- What is found is the first.
pub matching-Removed :
    (qp : Qpeek) (pde : Extension) (irp : Irp) (pde' : Extension)
    → Removed pde qp irp pde'
    → matching qp pde.pending_irp_queue ≡ irp ∷ matching qp pde'.pending_irp_queue
matching-Removed qp pde irp pde' r =
    let f = r.finds.has in
    let none_before = matching-Unmatched qp f.before r.finds.skipped in
    ap (matching qp) f.split
    ∙ matching-append qp f.before (irp ∷ f.after)
    ∙ ap (λ l. l ++ matching qp (irp ∷ f.after)) none_before
    ∙ ap (λ t. if t then irp ∷ matching qp f.after else matching qp f.after) r.finds.matches
    ∙ ap (λ l. irp ∷ (l ++ matching qp f.after)) (sym none_before)
    ∙ ap (◌∷◌ irp) (sym (matching-append qp f.before f.after) ∙ ap (matching qp) (sym r.queue))
