-- ===== src/Windows/Writes/Cancelled.antt =====
-- windows/xenv4v/create.c: what V4vCancelAllFileIrps takes out of the queue.
use legacy_v4v.Prelude.{
  ℕ, zero, suc, ◌<◌, ◌≡◌, refl, sym, ap, ◌∙◌, Bool, true, false, ◌&&◌, ◌||◌, inl, inr, Option, none,
  some, List, [], ◌∷◌, ◌++◌, length, ◌==◌, if◌then◌else◌, Bool-cases, arith,
}
use legacy_v4v.Windows.Csq.{Irp, Extension, status_cancelled, peek_test, remove_next_irp}
use legacy_v4v.Windows.Csq.Pending.{IsLinked}
use legacy_v4v.Windows.Csq.Queued.{Unmatched}
use legacy_v4v.Windows.Csq.Remove.{Removed, Takes, remove_next_irp-Takes}
use legacy_v4v.Windows.Machine.{
  completed, Machine, log, simple_complete, writes_of_file, cancel_loop, cancel_all_file_irps,
}
use legacy_v4v.Windows.Writes.Tally.{remove_next_irp-Without}
use legacy_v4v.Windows.Writes.Steps.{Gives, gives_map}

-- A write of that file
abbrev pub is_write_of : ℕ → Irp → Bool
is_write_of file x = (x.flags.dgram || x.flags.stream) && (x.flags.write && x.file == file)

-- The queue without the writes of the file
abbrev pub without_writes : ℕ → List Irp → List Irp
without_writes file [] = []
without_writes file (x ∷ xs) =
    let rest = without_writes file xs in if is_write_of file x then rest else x ∷ rest

peek_test-is_write_of :
    (file : ℕ) (x : Irp) → peek_test x (writes_of_file file) ≡ is_write_of file x
unfolding peek_test
peek_test-is_write_of file x = ground arith

without_writes-append :
    (file : ℕ) (xs ys : List Irp)
    → without_writes file (xs ++ ys) ≡ without_writes file xs ++ without_writes file ys
without_writes-append file [] ys = refl
without_writes-append file (x ∷ xs) ys = elim (Bool-cases (is_write_of file x)) [
  | inl e ↦ rw e (without_writes-append file xs ys)
  | inr e ↦ rw e (ap (◌∷◌ x) (without_writes-append file xs ys))
]

without_writes-Unmatched :
    (file : ℕ) (q : List Irp) → Unmatched (writes_of_file file) q → without_writes file q ≡ q
without_writes-Unmatched file [] h = refl
without_writes-Unmatched file (x ∷ xs) (h, hs) =
    let e : is_write_of file x ≡ false = sym (peek_test-is_write_of file x) ∙ h in
    rw e (ap (◌∷◌ x) (without_writes-Unmatched file xs hs))

-- A taken write is not missed in what is left.
without_writes-Removed :
    (file : ℕ) (pde : Extension) (irp : Irp) (pde' : Extension)
    → Removed pde (writes_of_file file) irp pde'
    → without_writes file pde'.pending_irp_queue ≡ without_writes file pde.pending_irp_queue
without_writes-Removed file pde irp pde' r =
    let f = r.finds.has in
    let e : is_write_of file irp ≡ true = sym (peek_test-is_write_of file irp) ∙ r.finds.matches in
    let cut = without_writes file in
    ap cut r.queue
    ∙ without_writes-append file f.before f.after
    ∙ ap (λ t. cut f.before ++ (if t then cut f.after else irp ∷ cut f.after)) (sym e)
    ∙ sym (without_writes-append file f.before (irp ∷ f.after))
    ∙ ap cut (sym f.split)

-- What is left of a queue
abbrev pub Cancelled : ℕ → Machine → Machine → Type 0
Cancelled file m m' =
    (m'.ext.pending_irp_queue ≡ without_writes file m.ext.pending_irp_queue) × IsLinked m'.ext

cancel_round :
    (fuel file : ℕ) (m : Machine)
    → length m.ext.pending_irp_queue < suc fuel
    → IsLinked m.ext
    → ((m' : Machine)
        → length m'.ext.pending_irp_queue < fuel
        → IsLinked m'.ext
        → Gives (cancel_loop fuel file m') (Cancelled file m'))
    → (o : Option (Irp × Extension)) → remove_next_irp m.ext (writes_of_file file) ≡ o
    → Takes m.ext (writes_of_file file) o
    → Gives
        (elim o as (λ o. Option Machine) [
          | none ↦ some m
          | some (irp, ext) ↦
              cancel_loop fuel file (simple_complete irp status_cancelled (record m { ext = ext }))
        ])
        (Cancelled file m)
unfolding simple_complete
cancel_round fuel file m h v next none e t =
    (m, refl, (sym (without_writes-Unmatched file m.ext.pending_irp_queue t), v))
cancel_round fuel file m h v next (some (irp, ext)) e r =
    let w = remove_next_irp-Without m.ext (writes_of_file file) irp ext e in
    gives_map
      (next (log (completed irp.id status_cancelled 0) (record m { ext = ext }))
        (omega (arith, w.shorter)) r.linked)
      (λ m' (queue, linked). (queue ∙ without_writes-Removed file m.ext irp ext r, linked))

cancel_loop-Cancelled :
    (fuel file : ℕ) (m : Machine)
    → length m.ext.pending_irp_queue < fuel
    → IsLinked m.ext
    → Gives (cancel_loop fuel file m) (Cancelled file m)
unfolding cancel_loop
cancel_loop-Cancelled zero file m h v = absurd (omega arith)
cancel_loop-Cancelled (suc fuel) file m h v =
    cancel_round fuel file m h v (cancel_loop-Cancelled fuel file)
      (remove_next_irp m.ext (writes_of_file file)) refl
      (remove_next_irp-Takes m.ext (writes_of_file file) v)

-- V4vCancelAllFileIrps returns, and then the queue has lost the writes of the file and nothing else:
-- reads and waiting ioctls of that file stay queued, in their order. The queue and the destination
-- list stay in step.
pub cancel_all_file_irps-Cancelled :
    (file : ℕ) (m : Machine)
    → IsLinked m.ext
    → Gives (cancel_all_file_irps file m) (Cancelled file m)
unfolding cancel_all_file_irps
cancel_all_file_irps-Cancelled file m v =
    cancel_loop-Cancelled (suc (length m.ext.pending_irp_queue)) file m (omega arith) v
