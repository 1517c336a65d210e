-- ===== src/ConfigLoader/Tests.antt =====
-- A configuration tree with references, and the theorem at it.
use aggregator_dpg.Prelude.{String, ◌≡◌, refl, Option, none, some, [], ◌∷◌, ◌=ₛ◌, if◌then◌else◌}
use aggregator_dpg.Prelude.Json.{Json, Items, Fields}
use aggregator_dpg.Prelude.Result.{ok}
use aggregator_dpg.ConfigLoader.{interpolate_string, interpolate_config}
use aggregator_dpg.ConfigLoader.Missing.{Reports, unset_of_fields, interpolate_config-Reports}

abbrev env : String → Option String
env name = if name =ₛ "HOST" then some "example.org" else none

-- A reference is replaced, a default is taken up to the first `}`, and `${}` is no reference.
url :
    interpolate_string env "https://${HOST}:${PORT:-8080}/${}$" ≡ ok "https://example.org:8080/${}$"
unfolding interpolate_string
url = refl

abbrev config : Fields
config = Fields.field "a" (Json.str "${HOST}") (
    Fields.field "b"
      (Json.arr (Items.cons (Json.str "x${PORT}${USER}") (Items.cons Json.null Items.nil)))
      (Fields.field "c" (Json.str "${PASSWORD}") Fields.end))

config-unset : unset_of_fields env config ≡ "PORT" ∷ "USER" ∷ "PASSWORD" ∷ []
unfolding unset_of_fields
config-unset = refl

interpolate_config-Reports_example :
    Reports (interpolate_config env config) (unset_of_fields env config)
interpolate_config-Reports_example = interpolate_config-Reports env config
