-- ===== src/Backends/Web/Tests.antt =====
-- A router with three ports and version 6.
use foris_controller.Prelude.{◌≡◌, refl, some, [], ◌∷◌}
use foris_controller.Uci.{text, items}
use foris_controller.Exceptions.{ok}
use foris_controller.Profiles.{workflow_steps, first_missing, next_step}
use foris_controller.Backends.Web.{System, recommended, available, next_of}

abbrev omnia : System
omnia = record { os_version = "6.3.0"; model = "omnia"; contract = ""; interfaces = 3 }

offers : available omnia 6 ≡ "router" ∷ "min" ∷ "bridge" ∷ []
offers = refl

chooses : recommended omnia 6 ≡ "router"
chooses = refl

networks_next : next_of (items ("password" ∷ "profile" ∷ [])) (text "router") ≡ ok (some "networks")
unfolding next_step workflow_steps first_missing
networks_next = refl
