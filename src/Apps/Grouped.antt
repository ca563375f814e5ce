-- ===== src/Apps/Grouped.antt =====
-- The groups that ListApps of internal/docker/apps.go makes of the containers.
use dockpal_agent.Base.{
  Bool, false, ◌&&◌, ◌||◌, List, [], ◌∷◌, ◌≡◌, refl, sym, ap, ◌∙◌, Option, none, some, Bool-cases,
  inl, inr, any, arith, if◌then◌else◌,
}
use dockpal_agent.Base.Bytes.{Bytes, equal, lookup}
use dockpal_agent.Base.Bytes.Laws.{lookup-insert, equal_iff, equal_refl}
use dockpal_agent.Apps.{
  ContainerInfo, AppServiceSummary, Accum, Projects, project_of, service_name, is_auto, summary,
  or_new, with_service, updated, add_container, accumulate,
}

-- What a map of projects says of a project: whether it updates itself, and a service of it.
abbrev auto_in : Option Accum → Bool
auto_in none = false
auto_in (some acc) = acc.auto_update

abbrev service_in : Bytes → Option Accum → Option AppServiceSummary
service_in s none = none
service_in s (some acc) = lookup s acc.services

abbrev pub auto_of : Bytes → Projects → Bool
auto_of p m = auto_in (lookup p m)

abbrev pub service_at : Bytes → Bytes → Projects → Option AppServiceSummary
service_at p s m = service_in s (lookup p m)

-- The first container of a project with a service name.
abbrev or_later : Option AppServiceSummary → Option AppServiceSummary → Option AppServiceSummary
or_later none later = later
or_later (some a) later = some a

is_of : Bytes → Bytes → ContainerInfo → Bool
is_of p s c = equal (project_of c) p && equal (service_name c) s

pub first_of : Bytes → Bytes → List ContainerInfo → Option AppServiceSummary
unfolding is_of
first_of p s [] = none
first_of p s (c ∷ cs) = or_later (if is_of p s c then some (summary c) else none) (first_of p s cs)

pub is_auto_of : Bytes → ContainerInfo → Bool
is_auto_of p c = equal (project_of c) p && is_auto c

or_false : (a : Bool) → a || false ≡ a
or_false a = ground arith

or_comm : (a b : Bool) → a || b ≡ b || a
or_comm a b = ground arith

or_assoc : (a b c : Bool) → (a || b) || c ≡ a || (b || c)
or_assoc a b c = ground arith

auto_new : (p : Bytes) (o : Option Accum) → (or_new p o).auto_update ≡ auto_in o
auto_new p none = refl
auto_new p (some acc) = refl

service_new : (p s : Bytes) (o : Option Accum) → lookup s (or_new p o).services ≡ service_in s o
unfolding lookup
service_new p s none = refl
service_new p s (some acc) = refl

or_later_none : (o : Option AppServiceSummary) → or_later o none ≡ o
or_later_none none = refl
or_later_none (some a) = refl

or_later_assoc :
    (x y z : Option AppServiceSummary) → or_later (or_later x y) z ≡ or_later x (or_later y z)
or_later_assoc none y z = refl
or_later_assoc (some a) y z = refl

-- a service that is there stays, and a new one is the first
service_with :
    (s : Bytes) (c : ContainerInfo) (o : Option AppServiceSummary)
    (ss : List (Bytes × AppServiceSummary))
    → lookup (service_name c) ss ≡ o
    → lookup s (with_service c o ss)
      ≡ or_later (lookup s ss) (if equal (service_name c) s then some (summary c) else none)
service_with s c none ss new = elim (Bool-cases (equal (service_name c) s)) [
  | inl same ↦
      let gone : lookup s ss ≡ none =
        ap (λ k. lookup k ss) (sym ((equal_iff (service_name c) s).0 same)) ∙ new in
      rw (lookup-insert (service_name c) s (summary c) ss, same, gone) refl
  | inr other ↦
      rw (lookup-insert (service_name c) s (summary c) ss, other, or_later_none (lookup s ss)) refl
]
service_with s c (some a) ss there = elim (Bool-cases (equal (service_name c) s)) [
  | inl same ↦
      let found : lookup s ss ≡ some a =
        ap (λ k. lookup k ss) (sym ((equal_iff (service_name c) s).0 same)) ∙ there in
      rw (same, found) refl
  | inr other ↦ rw (other, or_later_none (lookup s ss)) refl
]

service_updated :
    (s : Bytes) (c : ContainerInfo) (acc : Accum)
    → lookup s (updated c acc).services
      ≡ or_later
          (lookup s acc.services)
          (if equal (service_name c) s then some (summary c) else none)
unfolding updated
service_updated s c acc = service_with s c (lookup (service_name c) acc.services) acc.services refl

-- Of a container, what the map says of a project behind it.
add_lem :
    (p : Bytes) (c : ContainerInfo) (m : Projects)
    → equal p [] ≡ false
    → lookup p (add_container c m)
      ≡ (if equal (project_of c) p then some (updated c (or_new p (lookup p m))) else lookup p m)
unfolding add_container
add_lem p c m h = elim (Bool-cases (equal (project_of c) p)) [
  | inl same ↦
      let e = (equal_iff (project_of c) p).0 same in
      rw (e, h, lookup-insert p p (updated c (or_new p (lookup p m))) m, equal_refl p) refl
  | inr other ↦ elim (Bool-cases (equal (project_of c) [])) [
    | inl bare ↦ rw (bare, other) refl
    | inr named ↦
        rw
          (
            named,
            lookup-insert (project_of c) p
                (updated c (or_new (project_of c) (lookup (project_of c) m))) m,
            other,
          )
          refl
  ]
]

auto_added :
    (p : Bytes) (c : ContainerInfo) (m : Projects)
    → equal p [] ≡ false
    → auto_of p (add_container c m) ≡ auto_of p m || is_auto_of p c
unfolding updated is_auto_of
auto_added p c m h = elim (Bool-cases (equal (project_of c) p)) [
  | inl same ↦
      rw (add_lem p c m h, same, auto_new p (lookup p m)) (or_comm (is_auto c) (auto_of p m))
  | inr other ↦ rw (add_lem p c m h, other) (sym (or_false (auto_of p m)))
]

service_added :
    (p s : Bytes) (c : ContainerInfo) (m : Projects)
    → equal p [] ≡ false
    → service_at p s (add_container c m)
      ≡ or_later (service_at p s m) (if is_of p s c then some (summary c) else none)
unfolding is_of
service_added p s c m h = elim (Bool-cases (equal (project_of c) p)) [
  | inl same ↦
      rw
        (
          add_lem p c m h,
          same,
          service_updated s c (or_new p (lookup p m)),
          service_new p s (lookup p m),
        )
        refl
  | inr other ↦ rw (add_lem p c m h, other) (sym (or_later_none (service_at p s m)))
]

auto_of-accumulate :
    (p : Bytes) (cs : List ContainerInfo) (m : Projects)
    → equal p [] ≡ false
    → auto_of p (accumulate cs m) ≡ auto_of p m || any (is_auto_of p) cs
unfolding accumulate
auto_of-accumulate p [] m h = sym (or_false (auto_of p m))
auto_of-accumulate p (c ∷ cs) m h =
    auto_of-accumulate p cs (add_container c m) h
    ∙ ap (λ b. b || any (is_auto_of p) cs) (auto_added p c m h)
    ∙ or_assoc (auto_of p m) (is_auto_of p c) (any (is_auto_of p) cs)

service_at-accumulate :
    (p s : Bytes) (cs : List ContainerInfo) (m : Projects)
    → equal p [] ≡ false
    → service_at p s (accumulate cs m) ≡ or_later (service_at p s m) (first_of p s cs)
unfolding accumulate first_of
service_at-accumulate p s [] m h = sym (or_later_none (service_at p s m))
service_at-accumulate p s (c ∷ cs) m h =
    service_at-accumulate p s cs (add_container c m) h
    ∙ ap (λ o. or_later o (first_of p s cs)) (service_added p s c m h)
    ∙ or_later_assoc (service_at p s m) (if is_of p s c then some (summary c) else none)
        (first_of p s cs)

-- The groups of ListApps: a project, whose name is not empty, updates itself if one of its containers
-- says so, and its service of a name is the first of its containers with that name.
pub accumulate_lem :
    (p s : Bytes) (cs : List ContainerInfo)
    → equal p [] ≡ false
    → (auto_of p (accumulate cs []) ≡ any (is_auto_of p) cs)
      × (service_at p s (accumulate cs []) ≡ first_of p s cs)
unfolding lookup
accumulate_lem p s cs h = (auto_of-accumulate p cs [] h, service_at-accumulate p s cs [] h)
