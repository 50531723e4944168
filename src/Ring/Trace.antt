-- ===== src/Ring/Trace.antt =====
-- Any sequence of writes to a circular buffer and reads from it (`write_to_buffer` and
-- `read_from_buffer` of zeos/io.c, `push_frame` and `read_frame` of zeos/user.c).
use soa_subject.Prelude.{ℕ, ◌≡◌, refl, ap, ◌∙◌, Option, List, [], ◌∷◌}
use soa_subject.Ring.{Ring, write, read}
use soa_subject.Ring.Queue.{
  IsValid, contents, enqueue, dequeue, write-enqueue, read-dequeue, write-IsValid, read-IsValid,
}

pub data Operation : Type 0 where
  put : ℕ → Operation
  take : Operation

-- What the reads of a sequence answer, and what is left.
module _ {ℓ} {S : Type ℓ} (add : ℕ → S → S) (remove : S → Option ℕ × S) where
  pub answers : List Operation → S → List (Option ℕ) × S
  answers [] s = ([], s)
  answers (put c ∷ es) s = answers es (add c s)
  answers (take ∷ es) s =
      let (out, s') = remove s in let (outs, s'') = answers es s' in (out ∷ outs, s'')

-- The reads of any sequence on a valid buffer answer what those of the bounded queue of its contents
-- do, and what is left is the same and valid.
pub answers-queue :
    (size : ℕ) (es : List Operation) (r : Ring)
    → IsValid size r
    → let (outs, r') = answers (write size) (read size) es r in
      ((outs, contents size r') ≡ answers (enqueue size) dequeue es (contents size r))
      × IsValid size r'
unfolding answers
answers-queue size [] r v = (refl, v)
answers-queue size (put c ∷ es) r v =
    let (same, v') = answers-queue size es (write size c r) (write-IsValid size v c) in
    (same ∙ ap (answers (enqueue size) dequeue es) (write-enqueue size v c), v')
answers-queue size (take ∷ es) r v =
    let (same, v') = answers-queue size es (read size r).1 (read-IsValid size v) in
    (
      ap (λ (p : List (Option ℕ) × List ℕ). ((read size r).0 ∷ p.0, p.1)) same
          ∙ ap
              (λ (p : Option ℕ × List ℕ).
                let (outs, q) = answers (enqueue size) dequeue es p.1 in (p.0 ∷ outs, q))
              (read-dequeue size v),
      v',
    )
