-- ===== src/Workspaces/Capacity.antt =====
-- workspace/src/manage/manage.service.ts: whether the cluster has room for one more environment.
pub mod Units
use hide_server.Base.{
  length, str_empty, str_key, nat_key, ℕ, ◌+◌, ◌-◌, ◌*◌, String, ite, Bool, true, false, ◌&&◌,
  Option, none, some, List, [], ◌∷◌, ℕ_discrete, Failure, pure, gets, or_throw, ◌>>=◌, ◌>>◌,
  throw_if, ltb, leb, if◌then◌else◌,
}
use Prim.Native.Char.{Char, code}
use Prim.Native.String
use mathlib.Core.Option
use hide_server.Workspaces.{deleting, unused, Workspace, AccessCode, Method, Site, filter_by}

abbrev pub number_or : ℕ → Option ℕ → ℕ
number_or d none = d
number_or d (some n) = n

-- a pod, and what each container requests: a quantity as Kubernetes writes it, if it requests any
pub record Pod : Type 0 where
  pub is_running : Bool
  pub requests : List (Option String)

-- the value of a digit, if the character is one
unfoldable pub digit : Char → Option ℕ
digit c = if leb b'0' (code c) && leb (code c) b'9' then some (code c - b'0') else none

-- the digits at the front of a text, behind those that have been read
unfoldable pub digits_from : Option ℕ → String → Option ℕ
digits_from n String.[] = n
digits_from n (String.◌∷◌ c s) = elim (digit c) [
  | none ↦ n
  | some d ↦ digits_from (some (number_or 0 n * 10 + d)) s
]

-- `parseInt` of a quantity, which Kubernetes writes with digits at the front; none is NaN
unfoldable pub parse_int : String → Option ℕ
parse_int = digits_from none

-- `replace('m', '')`: the first one goes
unfoldable pub without_m : String → String
without_m String.[] = ""
without_m (String.◌∷◌ c s) =
    let rest = without_m s in ite (ℕ_discrete (code c) b'm') s (String.◌∷◌ c rest)

-- `endsWith('m')`
unfoldable pub ends_with_m : String → Bool
ends_with_m String.[] = false
ends_with_m (String.◌∷◌ c s) =
    let rest = ends_with_m s in
    if str_empty s then ite (ℕ_discrete (code c) b'm') true false else rest

-- `m || n`
unfoldable pub or_zero : ℕ → ℕ → ℕ
or_zero m n = elim (ℕ_discrete m 0) [ yes _ ↦ n | no _ ↦ m ]

-- `parseInt(cpu) * 1000 || parseInt(cpu.replace('m', ''))`, in thousandths; 0 for what is no number
unfoldable pub allocatable_cpu : String → ℕ
allocatable_cpu q =
    or_zero (number_or 0 (parse_int q) * 1000) (number_or 0 (parse_int (without_m q)))

-- none is NaN
abbrev pub add : Option ℕ → Option ℕ → Option ℕ
add (some m) (some n) = some (m + n)
add _ _ = none

unfoldable pub requested_by : Option String → Option ℕ
requested_by none = some 0
requested_by (some q) =
    if str_empty q
    then some 0
    else if ends_with_m q
    then parse_int (without_m q)
    else Option.map (λ n. n * 1000) (parse_int q)

unfoldable pub requested_by_all : List (Option String) → Option ℕ
requested_by_all [] = some 0
requested_by_all (r ∷ rs) = add (requested_by r) (requested_by_all rs)

unfoldable pub requested_cpu : List Pod → Option ℕ
requested_cpu [] = some 0
requested_cpu (pod ∷ pods) =
    let others = requested_cpu pods in
    if pod.is_running then add (requested_by_all pod.requests) others else others

-- What the cluster's interface answers: the allocatable quantity of each node, and the pods that are
-- no environment's; none if the call fails. Then the two thresholds of the process environment,
-- none if they are no numbers.
pub record Cluster : Type 0 where
  -- the answer of a simulated platform
  pub simulated : Option Bool
  pub nodes : Option (List String)
  pub pods : Option (List Pod)
  pub cpu_request : Option ℕ
  pub idle_threshold : Option ℕ

abbrev pub unknown : Failure
unknown = record { status = 500; message = "UNKNOWN" }

abbrev pub first : {A : Type 0} → List A → Option A
first [] = none
first (x ∷ xs) = some x

unfoldable pub is_counted : Workspace → Bool
is_counted x = elim x.status [ deleting ↦ false | _ ↦ x.dedicated ]

unfoldable pub is_unused : AccessCode → Bool
is_unused a = elim a.status [ unused ↦ true | _ ↦ false ]

abbrev pub provisioned : Site → ℕ
provisioned s = length (filter_by is_counted s.workspaces) + length (filter_by is_unused s.codes)

-- The comparison without the subtraction, which may be below zero. With NaN it is false.
unfoldable pub has_room : Cluster → ℕ → ℕ → Option ℕ → Bool
has_room k count allocatable none = false
has_room k count allocatable (some requested) =
    ltb ((count + 1) * number_or 200 k.cpu_request + requested + number_or 350 k.idle_threshold)
      allocatable

unfoldable pub measure : Cluster → Method Bool
measure k = do
  count ← gets provisioned
  nodes ← or_throw k.nodes unknown
  node ← or_throw (first nodes) unknown
  let allocatable = allocatable_cpu node
  throw_if (leb allocatable 0) unknown
  pods ← or_throw k.pods unknown
  pure (has_room k count allocatable (requested_cpu pods))

unfoldable pub can_provision : Cluster → Method Bool
can_provision k = elim k.simulated [ some b ↦ pure b | none ↦ measure k ]
