-- ===== src/Concurrent/Return/Runs.antt =====
-- Steps of the worker of src/concurrent.rs alone.
use samsara.Prelude.{
  ℕ, zero, suc, ◌+◌, ◌≡◌, List, [], ◌∷◌, length, arith, Outcome, ok, ◌>>=◌, ap, ◌∙◌,
}
use samsara.Barrier.{MarkStack, push}
use samsara.Concurrent.{Shared, Worker, finished, work, push_all}

-- `n` steps of the worker, with no other thread between them.
unfoldable pub work_for : ℕ → Shared → Worker → Outcome (Shared × Worker)
work_for zero s k = ok (s, k)
work_for (suc n) s k = work s k >>= λ (s', k'). work_for n s' k'

-- Enough steps bring the worker to its end.
abbrev pub Returns : Shared → Worker → Type 0
Returns s k =
    (n : ℕ) × (s' : Shared) × (black : List ℕ) × (work_for n s k ≡ ok (s', finished black))

pub after :
    (s : Shared) (k : Worker) {s' : Shared} {k' : Worker}
    → work s k ≡ ok (s', k')
    → Returns s' k'
    → Returns s k
unfolding work_for
after s k e (n, t, black, done) =
    (suc n, t, black, ap (λ o. o >>= λ (a, b). work_for n a b) e ∙ done)

pub length-push_all :
    (s : MarkStack) (ids : List ℕ) → length (push_all s ids).objects ≡ length s.objects + length ids
unfolding push_all push
length-push_all s [] = omega arith
length-push_all s (id ∷ ids) = ground (arith, length-push_all (push s id) ids)
