-- ===== src/Tests/Config.antt =====
-- The theorems on the configuration and its numbers at concrete inputs.
use pulse_notify.Prelude.{ℕ, ◌≡◌, ◌↔◌, refl, [], ◌∷◌, map, arith, Text, codes, text_eq, trim_space}
use pulse_notify.Errors.{ok}
use pulse_notify.Config.{Env, Config, load, split_and_trim}
use pulse_notify.Config.Split.{join_with, IsEntry, split_and_trim-join_with}
use pulse_notify.Config.Loading.{Reads, app_env_of, after_dotenv, load_iff}
use pulse_notify.Config.Defaults.{only, fallbacks, load-fallbacks}

abbrev pub no_fraction : ℕ → ℕ → ℕ → ℕ
no_fraction f k unit = 0

abbrev pub no_file : Env → Env
no_file env = env

abbrev pub url : Text
url = codes "postgres://db"

abbrev pub secret : Text
secret = codes "0123456789abcdef0123456789abcdef"

abbrev pub settings : Config
settings = fallbacks url secret

pub loads : load no_fraction no_file (only url secret) ≡ ok settings
loads = load-fallbacks no_fraction no_file url secret refl (λ e. cc) (omega arith)

load_iff_example :
    (load no_fraction no_file (only url secret) ≡ ok settings)
    ↔ Reads no_fraction
        (app_env_of (only url secret))
        (after_dotenv no_file (only url secret))
        settings
load_iff_example = load_iff no_fraction no_file (only url secret) settings

first_broker : IsEntry (codes " a:1 ")
unfolding trim_space text_eq
first_broker = record { no_comma = (refl, (refl, (refl, (refl, (refl, tt))))); there = refl }

second_broker : IsEntry (codes "b:2")
unfolding trim_space text_eq
second_broker = record { no_comma = (refl, (refl, (refl, tt))); there = refl }

split_and_trim-join_with_example :
    split_and_trim (join_with b',' (codes " a:1 " ∷ codes "b:2" ∷ []))
    ≡ map trim_space (codes " a:1 " ∷ codes "b:2" ∷ [])
split_and_trim-join_with_example =
    split_and_trim-join_with (codes " a:1 ") (codes "b:2" ∷ []) (first_broker, (second_broker, tt))
