-- ===== src/Cache/Keys.antt =====
-- The texts of the cache's keys (libs/common/cache/presence.ts, membership.ts), and how the gateway
-- takes an expired key apart (`key.split(':')` in gateway/src/socket/socket.gateway.ts).
use hide_server.Base.{
  All, str_key, nat_key, String, ◌≡◌, refl, sym, ap, ◌∙◌, ◌≢◌, ite, List, [], ◌∷◌, arith,
  ℕ_discrete,
}
use mathlib.Core.Logic.{if_neg}
use text.Mathlib.TextLemmas.{nil-append, cons-append}
use Prim.Native.Char.{Char, code}
use Prim.Native.String
use hide_server.Cache.{Timer}

-- `${s}:${t}`
abbrev pub joined : String → String → String
joined s t = String.◌++◌ s (String.◌++◌ ":" t)

unfoldable pub presence_key : String → String
presence_key uid = joined "presence" uid

unfoldable pub workspace_key : String → String
workspace_key uuid = joined "workspace" uuid

unfoldable pub membership_key : String → String
membership_key uid = joined "membership" uid

-- `presence:${uid}:${sessionId}` and `presence:${uid}:${sessionId}:${wsUuid}`
unfoldable pub timer_text : Timer → String
timer_text (Timer.session uid sid) = joined "presence" (joined uid sid)
timer_text (Timer.workspace uid sid uuid) = joined "presence" (joined uid (joined sid uuid))

abbrev extend : Char → List String → List String
extend c [] = []
extend c (part ∷ parts) = String.◌∷◌ c part ∷ parts

-- `text.split(':')`: always one part at least
unfoldable pub split : String → List String
split String.[] = "" ∷ []
split (String.◌∷◌ c s) =
    let parts = split s in ite (ℕ_discrete (code c) b':') ("" ∷ parts) (extend c parts)

-- A text with no colon.
abbrev pub IsPlain : String → Type 0
IsPlain String.[] = Unit
IsPlain (String.◌∷◌ c s) = (code c ≢ b':') × IsPlain s

split-plain : (s : String) → IsPlain s → split s ≡ s ∷ []
unfolding split
split-plain String.[] h = refl
split-plain (String.◌∷◌ c s) h = rw (if_neg _ h.0, split-plain s h.1)

split-joined : (s t : String) → IsPlain s → split (joined s t) ≡ s ∷ split t
unfolding split ℕ_discrete
split-joined String.[] t h =
    rw (nil-append (String.◌++◌ ":" t), cons-append ":" "" t, nil-append t) refl
split-joined (String.◌∷◌ c s) t h =
    rw (cons-append c s (String.◌++◌ ":" t), if_neg _ h.0, split-joined s t h.1)

presence-IsPlain : IsPlain "presence"
presence-IsPlain = omega arith

abbrev pub timer_parts : Timer → List String
timer_parts (Timer.session uid sid) = uid ∷ sid ∷ []
timer_parts (Timer.workspace uid sid uuid) = uid ∷ sid ∷ uuid ∷ []

-- The parts of an expired key are those it was made of, behind "presence", if none of them holds a
-- colon.
pub split-timer_text :
    (t : Timer) → All IsPlain (timer_parts t) → split (timer_text t) ≡ "presence" ∷ timer_parts t
unfolding timer_text
split-timer_text (Timer.session uid sid) h =
    split-joined "presence" (joined uid sid) presence-IsPlain
    ∙ ap (◌∷◌ "presence") (split-joined uid sid h.0 ∙ ap (◌∷◌ uid) (split-plain sid h.1.0))
split-timer_text (Timer.workspace uid sid uuid) h =
    split-joined "presence" (joined uid (joined sid uuid)) presence-IsPlain
    ∙ ap (◌∷◌ "presence") (
        split-joined uid (joined sid uuid) h.0
        ∙ ap (◌∷◌ uid) (split-joined sid uuid h.1.0 ∙ ap (◌∷◌ sid) (split-plain uuid h.1.1.0)))

timer_of_parts : (t t' : Timer) → "presence" ∷ timer_parts t ≡ "presence" ∷ timer_parts t' → t ≡ t'
timer_of_parts (Timer.session _ _) (Timer.session _ _) e = cc
timer_of_parts (Timer.session _ _) (Timer.workspace _ _ _) e = cc
timer_of_parts (Timer.workspace _ _ _) (Timer.session _ _) e = cc
timer_of_parts (Timer.workspace _ _ _) (Timer.workspace _ _ _) e = cc

-- Two timers have the same key only if they are the same, where no part holds a colon: no session's
-- timer overwrites another's, nor that of a workspace.
pub timer_text_injective :
    (t t' : Timer)
    → All IsPlain (timer_parts t)
    → All IsPlain (timer_parts t')
    → timer_text t ≡ timer_text t'
    → t ≡ t'
timer_text_injective t t' h h' e =
    timer_of_parts t t' (sym (split-timer_text t h) ∙ ap split e ∙ split-timer_text t' h')
