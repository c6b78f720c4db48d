-- ===== src/Cache/Tests.antt =====
-- The keys of timers at two sessions.
use hide_server.Base.{All, str_key, nat_key, ◌≡◌, [], ◌∷◌, arith}
use hide_server.Cache.{Timer}
use hide_server.Cache.Keys.{split, timer_text, timer_parts, IsPlain, split-timer_text}

abbrev first : Timer
first = Timer.workspace "ann" "s1" "w1"

first-IsPlain : All IsPlain (timer_parts first)
first-IsPlain = ground arith

split-timer_text_example : split (timer_text first) ≡ "presence" ∷ "ann" ∷ "s1" ∷ "w1" ∷ []
split-timer_text_example = split-timer_text first first-IsPlain
