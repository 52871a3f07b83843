-- ===== src/Worker/Apply/Handler/Atomic.antt =====
-- The transactions of the database under a handler: a body that returns is committed as it is, and of one
-- that throws every row is taken back.
use cap_rail.Prelude.{refl, ◌≡◌}
use cap_rail.Result.{Error, Result, err, ok}
use cap_rail.Worker.Act.{Act, World}
use cap_rail.Worker.Act.Keeps.{Keeps}
use cap_rail.Worker.Apply.Handler.{write}
use cap_rail.Worker.Apply.Lookup.{Chain, Lesson}
use cap_rail.Worker.Rows.{Index}

pub record Transactional (c : Chain) : Type 0 where
  pub commits :
      (body : Act Lesson) (w : World) {w' : World} {lesson : Lesson}
      → body w ≡ (ok lesson, w')
      → c.in_transaction body w ≡ (ok lesson, w')
  pub rolls_back :
      (body : Act Lesson) (w : World) {w' : World} {e : Error}
      → body w ≡ (err e, w')
      → c.in_transaction body w ≡ (err e, record w' { index = w.index })

module _ {P : Index → Type 0} (c : Chain) (transactional : Transactional c) (body : Act Lesson)
    (k : Keeps P body) where
  transaction-Keeps :
      (w : World) (r : Result Lesson × World)
      → body w ≡ r
      → P w.index
      → P (c.in_transaction body w).1.index
  transaction-Keeps w (ok lesson, w') e h = rw (transactional.commits body w e) (rw e at (k.at w h))
  transaction-Keeps w (err x, w') e h = rw (transactional.rolls_back body w e) h

  pub write-Keeps : Keeps P (write c body)
  unfolding write
  write-Keeps = record { at = λ w h. transaction-Keeps w (body w) refl h }
