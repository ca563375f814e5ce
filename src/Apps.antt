-- ===== src/Apps.antt =====
-- `ListApps` of internal/docker/apps.go: the apps that the labels of the containers tell. The daemon's two
-- lists of containers are parameters; package sort is an insertion sort.
pub mod Grouped
mod Examples
use dockpal_agent.Base.{
  ℕ, Bool, true, false, ◌||◌, List, [], ◌∷◌, ◌++◌, map, Option, none, some, Result, ok, err, ◌>>=◌,
  ◌==◌, ltb, if◌then◌else◌,
}
use dockpal_agent.Base.Bytes.{Bytes, codes, equal, mem, lookup, insert}
use dockpal_agent.Exec.{take}

-- A container of the daemon's list, and what is handed on of it, as far as ListApps reads them.
pub record Item : Type 0 where
  pub id : Bytes
  pub names : List Bytes
  pub image : Bytes
  pub state : Bytes
  pub labels : List (Bytes × Bytes)

pub record ContainerInfo : Type 0 where
  pub id : Bytes
  pub name : Bytes
  pub image : Bytes
  pub state : Bytes
  pub labels : List (Bytes × Bytes)

-- id[:n], or a shorter id as it is
unfoldable pub truncate_id : Bytes → ℕ → Bytes
truncate_id id n = take n id

unfoldable pub first_name : List Bytes → Bytes
first_name [] = []
first_name ([] ∷ names) = []
first_name ((c ∷ name) ∷ names) = if c == b'/' then name else c ∷ name

unfoldable pub info : Item → ContainerInfo
info i = record {
  id = truncate_id i.id 12;
  name = first_name i.names;
  image = i.image;
  state = i.state;
  labels = i.labels;
}

-- the containers whose id is new, with the ids that have been seen
unfoldable pub unseen : List ContainerInfo → List Bytes → List ContainerInfo × List Bytes
unseen [] seen = ([], seen)
unseen (c ∷ cs) seen =
    let rest = unseen cs seen in
    let next = unseen cs (c.id ∷ seen) in
    if equal c.id [] || mem c.id seen then rest else (c ∷ next.0, next.1)

unfoldable pub merged : List ContainerInfo → List ContainerInfo → List ContainerInfo
merged containers compose =
    let (first, seen) = unseen containers [] in first ++ (unseen compose seen).0

pub record AppServiceSummary : Type 0 where
  pub name : Bytes
  pub image : Bytes
  pub state : Bytes

-- projectAccum
pub record Accum : Type 0 where
  pub name : Bytes
  pub auto_update : Bool
  pub services : List (Bytes × AppServiceSummary)

abbrev or_blank : Option Bytes → Bytes
or_blank none = []
or_blank (some v) = v

abbrev pub label : Bytes → ContainerInfo → Bytes
label key c = or_blank (lookup key c.labels)

abbrev or_next : Bytes → Bytes → Bytes
or_next [] other = other
or_next (c ∷ s) other = c ∷ s

unfoldable pub project_of : ContainerInfo → Bytes
project_of c =
    or_next (label (codes "dockpal.project") c) (label (codes "com.docker.compose.project") c)

unfoldable pub service_name : ContainerInfo → Bytes
service_name c =
    or_next (label (codes "dockpal.service") c)
      (or_next (label (codes "com.docker.compose.service") c) c.name)

unfoldable pub is_auto : ContainerInfo → Bool
is_auto c = equal (label (codes "dockpal.auto-update") c) (codes "true")

abbrev pub summary : ContainerInfo → AppServiceSummary
summary c = record { name = service_name c; image = c.image; state = c.state }

abbrev pub or_new : Bytes → Option Accum → Accum
or_new project none = record { name = project; auto_update = false; services = [] }
or_new project (some acc) = acc

-- the first container of a service name counts
abbrev pub with_service :
    ContainerInfo
    → Option AppServiceSummary
    → List (Bytes × AppServiceSummary)
    → List (Bytes × AppServiceSummary)
with_service c none services = insert (service_name c) (summary c) services
with_service c (some there) services = services

unfoldable pub updated : ContainerInfo → Accum → Accum
updated c acc = record acc {
  auto_update = is_auto c || acc.auto_update;
  services = with_service c (lookup (service_name c) acc.services) acc.services;
}

abbrev pub Projects : Type 0
Projects = List (Bytes × Accum)

unfoldable pub add_container : ContainerInfo → Projects → Projects
add_container c m =
    let p = project_of c in if equal p [] then m else insert p (updated c (or_new p (lookup p m))) m

-- the loop over the containers
unfoldable pub accumulate : List ContainerInfo → Projects → Projects
accumulate [] m = m
accumulate (c ∷ cs) m = accumulate cs (add_container c m)

-- a < b on strings
unfoldable pub less : Bytes → Bytes → Bool
less [] [] = false
less [] (y ∷ ys) = true
less (x ∷ xs) [] = false
less (x ∷ xs) (y ∷ ys) = if x == y then less xs ys else ltb x y

module _ {A : Type 0} (name : A → Bytes) where
  unfoldable pub place : A → List A → List A
  place a [] = a ∷ []
  place a (b ∷ bs) =
      let rest = place a bs in if less (name b) (name a) then b ∷ rest else a ∷ b ∷ bs

  unfoldable pub sort_by : List A → List A
  sort_by [] = []
  sort_by (a ∷ more) = place a (sort_by more)

-- the fields on updates are zero throughout
pub record AppSummary : Type 0 where
  pub name : Bytes
  pub services : List AppServiceSummary
  pub auto_update : Bool

unfoldable pub app_of : Bytes × Accum → AppSummary
app_of (p, acc) = record {
  name = acc.name;
  services = sort_by (λ s. s.name) (map (λ kv. kv.1) acc.services);
  auto_update = acc.auto_update;
}

-- ListContainersWithLabel, by the daemon's answer for the label
unfoldable pub list_containers_with_label :
    (Bytes → Result (List Item)) → Bytes → Result (List ContainerInfo)
list_containers_with_label listed key = elim (listed key) [
  | ok items ↦ ok (map info items)
  | err e ↦ err (codes "failed to list containers with label \"" ++ (key ++ (codes "\": " ++ e)))
]

unfoldable pub list_apps : (Bytes → Result (List Item)) → Result (List AppSummary)
list_apps listed = list_containers_with_label listed (codes "dockpal.project") >>= λ containers.
    list_containers_with_label listed (codes "com.docker.compose.project") >>= λ compose.
    ok (sort_by (λ a. a.name) (map app_of (accumulate (merged containers compose) [])))
