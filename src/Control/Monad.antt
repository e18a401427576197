-- ===== src/Control/Monad.antt =====
-- How the control service calls the registry, the backend and the platform.
use microsanbox_cloud.Effects.{Outcome, Eff, ok}
use microsanbox_cloud.Database.{Db}
use microsanbox_cloud.Control.Types.{Service}

abbrev pub M : Type 0 → Type 0 → Type 0
M W A = Eff (Service W) A

module _ {W A : Type 0} where
  abbrev pub with_db : Service W → Outcome A × Db → Outcome A × Service W
  with_db s (o, db) = (o, record s { db = db })

  abbrev pub with_world : Service W → Outcome A × W → Outcome A × Service W
  with_world s (o, world) = (o, record s { world = world })

  abbrev pub with_value : Service W → A × W → Outcome A × Service W
  with_value s (a, world) = (ok a, record s { world = world })

  -- A method of the registry.
  abbrev pub on_db : Eff Db A → M W A
  on_db m s = with_db s (m s.db)

  -- A method of the backend.
  abbrev pub on_world : Eff W A → M W A
  on_world m s = with_world s (m s.world)

  -- A value of the platform: the time, random text.
  abbrev pub get_value : (W → A × W) → M W A
  get_value f s = with_value s (f s.world)

module _ {W : Type 0} where
  abbrev pub modify_db : (Db → Db) → M W (Unit {0})
  modify_db f s = (ok tt, record s { db = f s.db })

  abbrev pub modify_world : (W → W) → M W (Unit {0})
  modify_world f s = (ok tt, record s { world = f s.world })
