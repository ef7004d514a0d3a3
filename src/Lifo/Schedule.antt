-- ===== src/Lifo/Schedule.antt =====
-- Runs of a lock-free stack (src/treiber.rs, src/safe_treiber.rs) by evaluation: each operation here is
-- a step, or some, of one thread.
use samsara.Prelude.{ℕ, zero, suc, ◌≡◌, refl, Option, List, []}
use samsara.Memory.{Effect, done, panics, undefined}
use samsara.Lifo.{Event}
use samsara.Lifo.Machine.{Algorithm, World, Step, Reaches, begin, later, advances}

pub record Run (A : Algorithm) : Type 0 where
  pub history : List Event
  pub last : World A
  pub reach : Reaches A history last

abbrev pub new_run : {A : Algorithm} → Run A
new_run {A} = record { history = []; last = _; reach = begin }

-- A step that the evaluation has found possible.
abbrev pub then_step :
    {A : Algorithm} (r : Run A) {e : Option Event} {w : World A} → Step r.last e w → Run A
then_step r st = record { history = _; last = _; reach = later r.reach st }

advanced :
    {A : Algorithm} (r : Run A) (i : ℕ) (o : Effect (A.Shared × A.Thread))
    → A.advance r.last.shared (r.last.threads i) ≡ o
    → Run A
advanced r i (done (s, t)) e = record {
  history = r.history;
  last = _;
  reach = later r.reach (advances i e);
}
advanced r i panics e = r
advanced r i undefined e = r

-- `n` steps of thread `i`.
unfoldable pub steps : {A : Algorithm} → ℕ → ℕ → Run A → Run A
unfolding advanced
steps i zero r = r
steps {A} i (suc n) r = steps i n (advanced r i (A.advance r.last.shared (r.last.threads i)) refl)
