-- ===== src/Cluster/Settings.antt =====
-- DefaultConfig of pkg/activerecord/config.go, as the configuration that Loading reads. A value of a
-- Go interface is one of the types that the methods ask for, or another. The warnings are left out.
use activerecord.Prelude.{ℕ, List, [], ◌∷◌, Option, none, some, Bool, false, ◌≡◌, refl}
use activerecord.Go.Strings.{entry}
use activerecord.Go.{Bytes}
use activerecord.Cluster.Loading.{Config, or_default}

pub data Value : Type 0 where
  bool_value : Bool → Value
  int_value : ℕ → Value
  duration_value : ℕ → Value
  string_value : Bytes → Value
  other_value : ℕ → Value

pub record DefaultConfig : Type 0 where
  pub cfg : List (Bytes × Value)
  pub created : ℕ

-- `created` of NewDefaultConfig is the zero time.
pub new_default_config : DefaultConfig
new_default_config = record { cfg = []; created = 0 }

pub new_default_config_from_map : List (Bytes × Value) → ℕ → DefaultConfig
new_default_config_from_map cfg now = record { cfg = cfg; created = now }

pub get_last_update_time : DefaultConfig → ℕ
get_last_update_time dc = dc.created

as_bool : Option Value → Option Bool
as_bool (some (bool_value b)) = some b
as_bool (some v) = none
as_bool none = none

unfoldable pub as_int : Option Value → Option ℕ
as_int (some (int_value n)) = some n
as_int (some v) = none
as_int none = none

unfoldable pub as_duration : Option Value → Option ℕ
as_duration (some (duration_value n)) = some n
as_duration (some v) = none
as_duration none = none

as_string : Option Value → Option Bytes
as_string (some (string_value s)) = some s
as_string (some v) = none
as_string none = none

-- The first of the defaults, or the zero value.
first_default : {A : Type 0} → List A → A → A
first_default [] zero_value = zero_value
first_default (d ∷ ds) zero_value = d

found_or : {A : Type 0} → Option A → A → A
found_or none d = d
found_or (some a) d = a

pub get_bool_if_exists : DefaultConfig → Bytes → Option Bool
get_bool_if_exists dc path = as_bool (entry path dc.cfg)

pub get_bool : DefaultConfig → Bytes → List Bool → Bool
get_bool dc path dfl = found_or (get_bool_if_exists dc path) (first_default dfl false)

unfoldable pub get_int_if_exists : DefaultConfig → Bytes → Option ℕ
get_int_if_exists dc path = as_int (entry path dc.cfg)

pub get_int : DefaultConfig → Bytes → List ℕ → ℕ
get_int dc path dfl = found_or (get_int_if_exists dc path) (first_default dfl 0)

unfoldable pub get_duration_if_exists : DefaultConfig → Bytes → Option ℕ
get_duration_if_exists dc path = as_duration (entry path dc.cfg)

pub get_duration : DefaultConfig → Bytes → List ℕ → ℕ
get_duration dc path dfl = found_or (get_duration_if_exists dc path) (first_default dfl 0)

pub get_string_if_exists : DefaultConfig → Bytes → Option Bytes
get_string_if_exists dc path = as_string (entry path dc.cfg)

pub get_string : DefaultConfig → Bytes → List Bytes → Bytes
get_string dc path dfl = found_or (get_string_if_exists dc path) (first_default dfl [])

-- What Loading takes of it.
unfoldable pub as_config : DefaultConfig → Config
as_config dc = record {
  int_of = get_int_if_exists dc;
  duration_of = get_duration_if_exists dc;
  string_of = get_string_if_exists dc;
  last_update = get_last_update_time dc;
}

found_or_default : (o : Option ℕ) (d : ℕ) → found_or o d ≡ or_default o d
unfolding found_or
found_or_default none d = refl
found_or_default (some v) d = refl

-- GetInt and GetDuration with a default give what the methods that say whether the entry exists give,
-- and the default where they give nothing, also for a value of another type.
pub as_config_lem :
    (dc : DefaultConfig) (path : Bytes) (d : ℕ)
    → (get_int dc path (d ∷ []) ≡ or_default ((as_config dc).int_of path) d)
      × (get_duration dc path (d ∷ []) ≡ or_default ((as_config dc).duration_of path) d)
unfolding get_int get_duration as_config first_default
as_config_lem dc path d = (
  found_or_default (get_int_if_exists dc path) d,
  found_or_default (get_duration_if_exists dc path) d,
)
