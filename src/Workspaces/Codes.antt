-- ===== src/Workspaces/Codes.antt =====
-- workspace/src/utils/index.ts: the text of an access code, drawn from random bytes.
use hide_server.Base.{
  length, All, str_key, nat_key, ℕ, zero, suc, ◌+◌, ◌-◌, ◌%◌, ◌≤◌, ◌<◌, String, ◌≡◌, refl, subst,
  ◌∙◌, inl, inr, Bool, true, false, Option, none, some, List, [], ◌∷◌, ◌++◌, arith, leb,
  if◌then◌else◌, Bool-cases,
}
use hide_server.Workspaces.{some_inj}
use Prim.Native.Char.{Char}

-- `CHARSPACE`, of 31 characters
abbrev pub charspace : String
charspace = "ABCDEFGHJKMNPQRSTUVWXYZ23456789"

abbrev pub space_len : ℕ
space_len = 31

-- `256 - (256 % charSpaceLen)`
abbrev pub max_valid : ℕ
max_valid = 256 - 256 % space_len

unfoldable pub nth : String → ℕ → Option Char
nth String.[] n = none
nth (String.◌∷◌ c s) zero = some c
nth (String.◌∷◌ c s) (suc n) = nth s n

-- one pass over the bytes: a byte at the top of the range is passed over, and the loop ends with
-- the text
unfoldable pub take_bytes : ℕ → List ℕ → List ℕ → List ℕ
take_bytes length_ [] out = out
take_bytes length_ (b ∷ bs) out =
    let skipped = take_bytes length_ bs out in
    let taken = take_bytes length_ bs (out ++ (b % space_len) ∷ []) in
    if leb length_ (length out) then out else if leb max_valid b then skipped else taken

-- the passes, each over its own random bytes, as long as the text is short; none if they run out
unfoldable pub draw : ℕ → List (List ℕ) → List ℕ → Option (List ℕ)
draw length_ [] out = if leb length_ (length out) then some out else none
draw length_ (bytes ∷ draws) out =
    let rest = draw length_ draws (take_bytes length_ bytes out) in
    if leb length_ (length out) then some out else rest

-- `out.join('')` of the characters at the indices
unfoldable pub code_text : List ℕ → Option String
code_text [] = some ""
code_text (c ∷ cs) =
    let rest = code_text cs in
    elim (nth charspace c) [
      | none ↦ none
      | some ch ↦ elim rest [ none ↦ none | some t ↦ some (String.◌∷◌ ch t) ]
    ]

unfoldable pub access_code : ℕ → List (List ℕ) → Option String
access_code length_ draws = elim (draw length_ draws []) [ none ↦ none | some cs ↦ code_text cs ]

abbrev pub IsIndex : ℕ → Type 0
IsIndex c = c < space_len

All-append : (xs ys : List ℕ) → All IsIndex xs → All IsIndex ys → All IsIndex (xs ++ ys)
All-append [] ys h k = k
All-append (x ∷ xs) ys h k = (h.0, All-append xs ys h.1 k)

length-append : (xs ys : List ℕ) → length (xs ++ ys) ≡ length xs + length ys
length-append [] ys = omega arith
length-append (x ∷ xs) ys = grind (arith, length-append xs ys)

-- what the two loops keep: indices only, and no more than are wanted
abbrev IsPart : ℕ → List ℕ → Type 0
IsPart n out = All IsIndex out × (length out ≤ n)

leb-false : (m n : ℕ) → leb m n ≡ false → n < m
leb-false m n e = ground arith

leb-true : (m n : ℕ) → leb m n ≡ true → m ≤ n
leb-true m n e = ground arith

longer :
    (n b : ℕ) (out : List ℕ)
    → IsPart n out
    → leb n (length out) ≡ false
    → IsPart n (out ++ (b % space_len) ∷ [])
longer n b out h e = (
  All-append out ((b % space_len) ∷ []) h.0 (omega arith, tt),
  grind (arith, length-append out ((b % space_len) ∷ []), leb-false n (length out) e),
)

take_bytes-IsPart : (n : ℕ) (bs out : List ℕ) → IsPart n out → IsPart n (take_bytes n bs out)
unfolding take_bytes
take_bytes-IsPart n [] out h = h
take_bytes-IsPart n (b ∷ bs) out h = elim (Bool-cases (leb n (length out))) [
  | inl e ↦ rw e h
  | inr e ↦ elim (Bool-cases (leb max_valid b)) [
    | inl f ↦ rw e (rw f (take_bytes-IsPart n bs out h))
    | inr f ↦
        rw e (rw f (take_bytes-IsPart n bs (out ++ (b % space_len) ∷ []) (longer n b out h e)))
  ]
]

abbrev IsWhole : ℕ → List ℕ → Type 0
IsWhole n cs = All IsIndex cs × (length cs ≡ n)

-- the test of the loop: what is long enough is the code
choose :
    (n : ℕ) (out cs : List ℕ) (b : Bool) (o : Option (List ℕ))
    → leb n (length out) ≡ b
    → IsPart n out
    → (o ≡ some cs → IsWhole n cs)
    → (if b then some out else o) ≡ some cs
    → IsWhole n cs
choose n out cs true o f h k e =
    subst (IsWhole n) (some_inj e) (h.0, grind (arith, h.1, leb-true n (length out) f))
choose n out cs false o f h k e = k e

draw-IsPart :
    (n : ℕ) (draws : List (List ℕ)) (out cs : List ℕ)
    → IsPart n out
    → draw n draws out ≡ some cs
    → IsWhole n cs
unfolding draw
draw-IsPart n [] out cs h e = choose n out cs (leb n (length out)) none refl h (λ q. never q) e
  where
    impossible : none ≡ some cs → ⊥
    impossible q = cc

    never : {C : Type 0} → none ≡ some cs → C
    never q = elim (impossible q) [ ]
draw-IsPart n (bytes ∷ draws) out cs h e =
    choose n out cs (leb n (length out)) (draw n draws (take_bytes n bytes out)) refl h
      (draw-IsPart n draws (take_bytes n bytes out) cs (take_bytes-IsPart n bytes out h)) e

-- the bytes that are not passed over
abbrev pub accepted : List ℕ → ℕ
accepted [] = 0
accepted (b ∷ bs) = if leb max_valid b then accepted bs else suc (accepted bs)

abbrev pub accepted_in : List (List ℕ) → ℕ
accepted_in [] = 0
accepted_in (bytes ∷ draws) = accepted bytes + accepted_in draws

take_bytes_grows :
    (n k : ℕ) (bs out : List ℕ)
    → k ≤ n
    → k ≤ length out + accepted bs
    → k ≤ length (take_bytes n bs out)
unfolding take_bytes
take_bytes_grows n k [] out h j = omega arith
take_bytes_grows n k (b ∷ bs) out h j = elim (Bool-cases (leb n (length out))) [
  | inl e ↦ rw e (grind (arith, leb-true n (length out) e))
  | inr e ↦ elim (Bool-cases (leb max_valid b)) [
    | inl f ↦ rw e (rw f (take_bytes_grows n k bs out h (grind (arith, j, f))))
    | inr f ↦ rw e (
        rw f (
          take_bytes_grows n k bs (out ++ (b % space_len) ∷ []) h
            (grind (arith, j, f, length-append out ((b % space_len) ∷ [])))))
  ]
]

draw_enough :
    (n : ℕ) (draws : List (List ℕ)) (out : List ℕ)
    → n ≤ length out + accepted_in draws
    → (cs : List ℕ) × (draw n draws out ≡ some cs)
unfolding draw
draw_enough n [] out h = elim (Bool-cases (leb n (length out))) [
  | inl e ↦ (out, rw e refl)
  | inr e ↦ (out, ground (arith, leb-false n (length out) e))
]
draw_enough n (bytes ∷ draws) out h = elim (Bool-cases (leb n (length out))) [
  | inl e ↦ (out, rw e refl)
  | inr e ↦ rw e (
      draw_enough n draws (take_bytes n bytes out) (
        grind (
          arith,
          h,
          take_bytes_grows n (n - accepted_in draws) bytes out (omega arith) (omega arith),
        )))
]

-- `text.length`, of a text of characters of one unit each
abbrev pub text_length : String → ℕ
text_length String.[] = 0
text_length (String.◌∷◌ c s) = suc (text_length s)

nth-some : (s : String) (n : ℕ) → n < text_length s → (c : Char) × (nth s n ≡ some c)
unfolding nth
nth-some String.[] n h = elim (absurd_lem n h) [ ]
  where
    absurd_lem : (k : ℕ) → k < 0 → ⊥
    absurd_lem k l = omega arith
nth-some (String.◌∷◌ c s) zero h = (c, refl)
nth-some (String.◌∷◌ c s) (suc n) h = nth-some s n (omega arith)

code_text_lem :
    (cs : List ℕ)
    → All IsIndex cs
    → (t : String) × (code_text cs ≡ some t) × (text_length t ≡ length cs)
unfolding code_text
code_text_lem [] h = ("", refl, refl)
code_text_lem (c ∷ cs) h =
    let (ch, e) = nth-some charspace c h.0 in
    let (t, f, l) = code_text_lem cs h.1 in
    (String.◌∷◌ ch t, rw (e, code_text) (rw (f, code_text) refl), omega arith)

-- If the random bytes hold as many that are not passed over as the code is to be long, the code is
-- drawn, and it has that length.
pub access_code_drawn :
    (n : ℕ) (draws : List (List ℕ))
    → n ≤ accepted_in draws
    → (t : String) × (access_code n draws ≡ some t) × (text_length t ≡ n)
unfolding access_code
access_code_drawn n draws h =
    let (cs, e) = draw_enough n draws [] (omega arith) in
    let whole = draw-IsPart n draws [] cs (tt, omega arith) e in
    let (t, f, l) = code_text_lem cs whole.0 in (t, rw (e, access_code) f, l ∙ whole.1)
