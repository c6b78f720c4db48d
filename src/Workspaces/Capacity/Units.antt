-- ===== src/Workspaces/Capacity/Units.antt =====
-- What the suffix of a node's quantity of processors does: nothing.
use hide_server.Base.{
  length, str_key, nat_key, ℕ, ◌+◌, ◌*◌, ◌<◌, String, ◌≡◌, refl, sym, ap, ◌∙◌, Bool, false, Option,
  none, some, List, ◌∷◌, arith, ℕ_discrete, Result, pure, ◌>>◌, throw_if, ltb, leb, ok,
}
use Prim.Native.Char.{Char}
use Prim.Native.String
use text.Mathlib.TextLemmas.{nil-append, cons-append, append-nil}
use hide_server.Workspaces.{Site, filter_by}
use hide_server.Workspaces.Capacity.{
  Pod, Cluster, digit, digits_from, parse_int, or_zero, unknown, allocatable_cpu, requested_cpu,
  provisioned, has_room, measure, can_provision, number_or, without_m, is_counted, is_unused,
}

-- the number that a text of digits writes, behind digits of the given value
abbrev pub value_of : ℕ → String → Option ℕ
value_of n String.[] = some n
value_of n (String.◌∷◌ c s) = elim (digit c) [ none ↦ none | some d ↦ value_of (n * 10 + d) s ]

-- the digits are read as far as they go
abbrev IsRead : String → Type 0
IsRead r = (n : ℕ) → digits_from (some n) r ≡ some n

step :
    (c : Char) (s r : String) (a n : ℕ) (o : Option ℕ)
    → ((d : ℕ)
        → value_of (a * 10 + d) s ≡ some n
        → digits_from (some (a * 10 + d)) (String.◌++◌ s r) ≡ some n)
    → elim o [ none ↦ none | some d ↦ value_of (a * 10 + d) s ] ≡ some n
    → elim o [ none ↦ some a | some d ↦ digits_from (some (a * 10 + d)) (String.◌++◌ s r) ] ≡ some n
step c s r a n none rest e = cc e
step c s r a n (some d) rest e = rest d e

digits_lem :
    (t r : String) (a n : ℕ)
    → IsRead r
    → value_of a t ≡ some n
    → digits_from (some a) (String.◌++◌ t r) ≡ some n
unfolding digits_from
digits_lem String.[] r a n h e = rw (nil-append r) (h a ∙ e)
digits_lem (String.◌∷◌ c s) r a n h e =
    rw (cons-append c s r) (step c s r a n (digit c) (λ d k. digits_lem s r (a * 10 + d) n h k) e)

-- the first digit
start :
    (c : Char) (s r : String) (n : ℕ) (o : Option ℕ)
    → IsRead r
    → elim o [ none ↦ none | some d ↦ value_of (0 * 10 + d) s ] ≡ some n
    → elim o [ none ↦ none | some d ↦ digits_from (some (0 * 10 + d)) (String.◌++◌ s r) ] ≡ some n
start c s r n none h e = cc e
start c s r n (some d) h e = digits_lem s r (0 * 10 + d) n h e

parse_lem :
    (t r : String) (n : ℕ)
    → IsRead r
    → value_of 0 t ≡ some n
    → 0 < n
    → parse_int (String.◌++◌ t r) ≡ some n
unfolding parse_int digits_from
parse_lem String.[] r n h e p = absurd (zero_lem e)
  where
    zero_lem : some 0 ≡ some n → ⊥
    zero_lem q = ground arith
parse_lem (String.◌∷◌ c s) r n h e p = rw (cons-append c s r) (start c s r n (digit c) h e)

IsRead-end : IsRead ""
unfolding digits_from
IsRead-end n = refl

IsRead-m : IsRead "m"
unfolding digits_from digit
IsRead-m n = refl

or_zero_lem : (m n : ℕ) → 0 < m → or_zero m n ≡ m
unfolding or_zero
or_zero_lem m n p = go (ℕ_discrete m 0)
  where
    go : (d : Dec (m ≡ 0)) → elim d [ yes _ ↦ n | no _ ↦ m ] ≡ m
    go (yes q) = absurd (omega (arith, q, p))
    go (no q) = refl

allocatable_lem :
    (t r : String) (n : ℕ)
    → IsRead r
    → value_of 0 t ≡ some n
    → 0 < n
    → allocatable_cpu (String.◌++◌ t r) ≡ n * 1000
unfolding allocatable_cpu
allocatable_lem t r n h e p =
    ap (λ x. or_zero (number_or 0 x * 1000) other) (parse_lem t r n h e p)
    ∙ or_zero_lem (n * 1000) other (omega (arith, p))
  where
    other : ℕ
    other = number_or 0 (parse_int (without_m (String.◌++◌ t r)))

-- a cluster whose first node has the quantity
abbrev pub cluster_of : String → List String → List Pod → Option ℕ → Option ℕ → Cluster
cluster_of q rest pods request idle = record {
  simulated = none;
  nodes = some (q ∷ rest);
  pods = some pods;
  cpu_request = request;
  idle_threshold = idle;
}

-- the workspaces and codes that are counted, and one more, fit beside the requests and the threshold
abbrev pub fits : ℕ → ℕ → Option ℕ → Option ℕ → Site → Bool
fits n requested request idle s =
    ltb
      ((length (filter_by is_counted s.workspaces) + length (filter_by is_unused s.codes) + 1)
          * number_or 200 request
        + requested
        + number_or 350 idle)
      (n * 1000)

measure_lem :
    (q : String) (rest : List String) (pods : List Pod) (request idle : Option ℕ) (n requested : ℕ)
    (s : Site)
    → requested_cpu pods ≡ some requested
    → allocatable_cpu q ≡ n * 1000
    → 0 < n
    → can_provision (cluster_of q rest pods request idle) s
      ≡ (ok (fits n requested request idle s), s)
unfolding can_provision measure has_room
measure_lem q rest pods request idle n requested s rs a p =
    ap (λ x. measured x (requested_cpu pods)) a ∙ ap (measured (n * 1000)) rs ∙ rw positive refl
  where
    measured : ℕ → Option ℕ → Result Bool × Site
    measured x r =
        (throw_if (leb x 0) unknown
            >> pure (has_room (cluster_of q rest pods request idle) (provisioned s) x r))
          s

    positive : leb (n * 1000) 0 ≡ false
    positive = ground arith

-- A first node whose quantity writes a number n above 0, with the `m` of thousandths behind it or
-- without, is taken for one of n whole processors: there is room exactly if the dedicated workspaces
-- that are not being deleted, the unused codes and one more, at the request of an environment each,
-- fit with the requests of the running pods and the threshold below n thousand. The requests of the
-- pods are numbers.
pub can_provision_units :
    (t : String) (rest : List String) (pods : List Pod) (request idle : Option ℕ) (n requested : ℕ)
    (s : Site)
    → value_of 0 t ≡ some n
    → 0 < n
    → requested_cpu pods ≡ some requested
    → (can_provision (cluster_of (String.◌++◌ t "m") rest pods request idle) s
        ≡ (ok (fits n requested request idle s), s))
      × (can_provision (cluster_of t rest pods request idle) s
          ≡ (ok (fits n requested request idle s), s))
can_provision_units t rest pods request idle n requested s e p rs = (
  measure_lem (String.◌++◌ t "m") rest pods request idle n requested s rs
      (allocatable_lem t "m" n IsRead-m e p) p,
  measure_lem t rest pods request idle n requested s rs
      (ap allocatable_cpu (sym (append-nil t)) ∙ allocatable_lem t "" n IsRead-end e p) p,
)
