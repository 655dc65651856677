-- ===== src/Crawler/Reading.antt =====
-- Environments that Load reads.
use lost_media_finder.Prelude.{◌≡◌, refl, none, some, [], ◌∷◌, arith, if◌then◌else◌, pos, negsuc}
use lost_media_finder.Text.{Text, codes, eq_text}
use lost_media_finder.Text.Decimal.{print, to_number}
use lost_media_finder.Text.Lines.{join, split_byte, trim_space}
use lost_media_finder.Text.Integers.{atoi, itoa}
use lost_media_finder.Crawler.Config.{default_config}
use lost_media_finder.Crawler.Environment.{get_env_int, get_env_int_slice, load, config_of}
use lost_media_finder.Crawler.Settings.{get_env_int_slice-join, get_env_int_slice-malformed}

load-nothing : config_of (load (λ key. [])) ≡ some default_config
unfolding config_of load get_env_int get_env_int_slice
load-nothing = refl

abbrev strikes : Text
strikes = codes "STRIKE_BACKOFF_SEC"

abbrev limits : Text
limits = codes "RATE_LIMIT_BACKOFF_SEC"

-- One list that is read, and one with a part that is no number.
unfoldable environment : Text → Text
unfolding eq_text
environment key =
    if eq_text key strikes
    then codes "60,-5"
    else if eq_text key limits
    then codes "300, 9x"
    else []

written : environment strikes ≡ join 44 (itoa (pos 60) ∷ itoa (negsuc 4) ∷ [])
unfolding environment join itoa print eq_text
written = refl

get_env_int_slice-join_example :
    get_env_int_slice environment strikes (pos 1 ∷ []) ≡ pos 60 ∷ negsuc 4 ∷ []
get_env_int_slice-join_example =
    get_env_int_slice-join environment strikes (pos 1 ∷ []) (pos 60) (negsuc 4 ∷ [])
      (omega arith, (omega arith, tt)) written

two_parts : split_byte 44 (environment limits) ≡ codes "300" ∷ codes " 9x" ∷ []
unfolding environment split_byte eq_text
two_parts = refl

no_number : atoi (trim_space (codes " 9x")) ≡ none
unfolding atoi trim_space to_number
no_number = refl

get_env_int_slice-malformed_example : get_env_int_slice environment limits (pos 1 ∷ []) ≡ pos 1 ∷ []
get_env_int_slice-malformed_example =
    get_env_int_slice-malformed environment limits (pos 1 ∷ []) (codes "300" ∷ []) [] (codes " 9x")
      two_parts no_number
