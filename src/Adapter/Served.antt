-- ===== src/Adapter/Served.antt =====
-- The life of a sandbox, requested of the service over the adapter.
use microsanbox_cloud.Prelude.{◌+◌, ◌≡◌, refl, false, [], ◌∷◌, codes}
use microsanbox_cloud.Registry.Tests.{four_ports, nothing}
use microsanbox_cloud.Control.Types.{Service}
use microsanbox_cloud.Control.Tests.{one_life}
use microsanbox_cloud.Control.Requests.{serve_all}
use microsanbox_cloud.Adapter.Service.{Platform, backend_of}
use microsanbox_cloud.Adapter.Balanced.{IsUncounted, serve_all-balanced}
use microsanbox_cloud.Adapter.Tests.{World, first, host, calls_of, host-IsCounted}

abbrev platform : Platform World
platform = record {
  draw = λ size w. (w.time ∷ [], record w { time = w.time + 1 });
  new_id = λ w. (w.time ∷ [], record w { time = w.time + 1 });
  refuses = λ w port. false;
}

platform-IsUncounted : IsUncounted host platform calls_of
platform-IsUncounted = record {
  stop = λ h w. refl;
  kill = λ h w. refl;
  remove = λ h w. refl;
  spawn = λ args stdin w. refl;
  list_images = λ w. refl;
  get_image = λ reference w. refl;
  get_volume = λ name w. refl;
  create_volume = λ name quota w. refl;
  remove_volume = λ name w. refl;
  connects = λ port w. refl;
  draw = λ size w. refl;
  new_id = λ w. refl;
}

abbrev over_adapter : Service World
over_adapter = record { db = nothing; world = first }

abbrev served : Service World
served =
    serve_all four_ports (backend_of four_ports host platform) (codes "key") one_life over_adapter

serve_all-balanced_example : served.world.opened + 0 ≡ served.world.detached + 0
serve_all-balanced_example =
    serve_all-balanced four_ports host platform (codes "key") calls_of host-IsCounted
      platform-IsUncounted one_life over_adapter tt
