-- ===== src/Stack/Store/Saved.antt =====
-- What GetStack reads behind SaveStack.
use mathlib.Core.Path.{subst}
use dockpal_agent.Base.{
  Bool, true, false, ◌||◌, List, [], ◌∷◌, ◌++◌, ◌≡◌, refl, sym, ap, ◌∙◌, Option, none, some, Result,
  ok, err, All, All-append, arith, Bool-cases, inl, inr,
}
use dockpal_agent.Base.Bytes.{Bytes, codes, equal, mem, lookup, insert, keys, contains_byte}
use dockpal_agent.Base.Bytes.Laws.{equal_iff, equal_refl, lookup-insert}
use dockpal_agent.FilePath.{join_path, render}
use dockpal_agent.FilePath.Clean.{IsPlain}
use dockpal_agent.Stack.Names.{bad_name, validate_stack_name, stack_dir}
use dockpal_agent.Stack.Names.Child.{
  stack_dir_lem, clean_child, join-snoc, name-IsPlain, IsName-bytes,
}
use dockpal_agent.Stack.World.{
  World, Outside, M, ◌>>=◌, lift, then_do, unless, write_file_atomic, read_file, mkdir_all,
}
use dockpal_agent.Stack.Store.{
  first_present, compose_file_path_in, wrap, write_stack, place_stack, save_stack, load, get_stack,
  unknown, validate_compose_yaml, validate_env_file, global_env_path, set_global_env,
  get_global_env,
}

-- A chain that succeeds has two halves that do.
then_do-eq-ok :
    {A B : Type 0} (x : Result A × World) (f : A → M B) {b : B} {w : World}
    → then_do x f ≡ (ok b, w)
    → (a : A) × (v : World) × (x ≡ (ok a, v)) × (f a v ≡ (ok b, w))
then_do-eq-ok (ok a, v) f h = (a, v, refl, h)
then_do-eq-ok (err e, v) f h = cc (ap (λ (x : Result _ × World). x.0) h)

wrap-eq-ok :
    {A : Type 0} (text : Bytes) (x : Result A × World) {a : A} {w : World}
    → wrap text x ≡ (ok a, w)
    → x ≡ (ok a, w)
wrap-eq-ok text (ok a, v) h = h
wrap-eq-ok text (err e, v) h = cc (ap (λ (x : Result _ × World). x.0) h)

unless-eq-ok :
    (e : Option Bytes) (f : World → World) (v w : World) → unless e f v ≡ (ok tt, w) → w ≡ f v
unless-eq-ok none f v w h = sym (ap (λ (x : Result (Unit {0}) × World). x.1) h)
unless-eq-ok (some e) f v w h = cc (ap (λ (x : Result (Unit {0}) × World). x.0) h)

module _ (o : Outside) where
  written :
      (dir fn content : Bytes) (v w : World)
      → write_file_atomic o dir fn content v ≡ (ok tt, w)
      → (mem dir v.dirs ≡ true)
        × (w ≡ record v { files = insert (join_path dir fn) content v.files })
  unfolding write_file_atomic
  written dir fn content v w h = elim (Bool-cases (mem dir v.dirs)) [
    | inl there ↦ (there, unless-eq-ok (o.write_fails (join_path dir fn)) _ v w (rw there at h))
    | inr gone ↦ cc (ap (λ (x : Result (Unit {0}) × World). x.0) (rw gone at h))
  ]

  -- The disk behind the two writes of SaveStack.
  write_stack_files :
      (dir yaml env : Bytes) (v w : World)
      → write_stack o dir yaml env v ≡ (ok tt, w)
      → (mem dir w.dirs ≡ true)
        × (w.files
            ≡ insert
                (join_path dir (codes ".env"))
                env
                (insert (join_path dir (codes "compose.yaml")) yaml v.files))
  unfolding write_stack
  write_stack_files dir yaml env v w h =
      let one : World → Result (Unit {0}) × World =
        write_file_atomic o dir (codes "compose.yaml") yaml in
      let two : World → Result (Unit {0}) × World = write_file_atomic o dir (codes ".env") env in
      let (u, v', first, second) =
        then_do-eq-ok (wrap (codes "write compose file: ") (one v))
          (λ _ x. wrap (codes "write .env file: ") (two x)) h in
      let (there, e) =
        written dir (codes "compose.yaml") yaml v v'
          (wrap-eq-ok (codes "write compose file: ") (one v) first) in
      let (there', e') =
        written dir (codes ".env") env v' w
          (wrap-eq-ok (codes "write .env file: ") (two v') second) in
      (
        subst (λ (x : World). mem dir x.dirs ≡ true) (sym e') there',
        ap (λ (x : World). x.files) e'
            ∙ ap (λ (x : World). insert (join_path dir (codes ".env")) env x.files) e,
      )

mem-keys-insert :
    (j k : Bytes) (s : Bytes) (m : List (Bytes × Bytes))
    → mem j (keys (insert k s m)) ≡ (equal k j || mem j (keys m))
unfolding mem keys insert
mem-keys-insert j k s [] = refl
mem-keys-insert j k s ((i, t) ∷ m) =
    ground (arith, mem-keys-insert j k s m, equal_iff i k, equal_iff i j, equal_iff k j)

equal-append : (d x y : Bytes) → equal (d ++ x) (d ++ y) ≡ equal x y
unfolding equal
equal-append [] x y = refl
equal-append (c ∷ d) x y = ground (arith, equal-append d x y)

or_true : (b : Bool) → (b || true) ≡ true
or_true true = refl
or_true false = refl

read_back :
    (o : Outside) (w : World) (p s : Bytes)
    → o.read_fails p ≡ none
    → lookup p w.files ≡ some s
    → read_file o w p ≡ some s
unfolding read_file
read_back o w p s reads at = rw (reads, read_file) at

-- What is loaded from a disk with the two files on it.
load_saved :
    (o : Outside) (w : World) (name dir yaml env : Bytes) (files : List (Bytes × Bytes))
    → ((p : Bytes) → o.read_fails p ≡ none)
    → equal (join_path dir (codes ".env")) (join_path dir (codes "compose.yaml")) ≡ false
    → w.files
      ≡ insert
          (join_path dir (codes ".env"))
          env
          (insert (join_path dir (codes "compose.yaml")) yaml files)
    → load o w name dir ≡ record {
      name = name;
      status = unknown;
      status_text = [];
      managed = true;
      compose_yaml = yaml;
      compose_env = env;
    }
unfolding load compose_file_path_in first_present
load_saved o w name dir yaml env files reads apart on_disk =
    let found : mem (join_path dir (codes "compose.yaml")) (keys w.files) ≡ true =
      rw on_disk (mem-keys-insert _ _ _ _ ∙ rw (mem-keys-insert, equal_refl) (or_true _)) in
    let yaml_at : lookup (join_path dir (codes "compose.yaml")) w.files ≡ some yaml =
      rw on_disk (lookup-insert _ _ _ _ ∙ rw (apart, lookup-insert, equal_refl) refl) in
    let env_at : lookup (join_path dir (codes ".env")) w.files ≡ some env =
      rw on_disk (lookup-insert _ _ _ _ ∙ rw equal_refl refl) in
    rw (found, read_back o w _ yaml (reads _) yaml_at, read_back o w _ env (reads _) env_at) refl

dot_env-IsPlain : IsPlain (codes ".env")
unfolding contains_byte equal
dot_env-IsPlain = record { no_slash = refl; not_empty = refl; not_dot = refl; not_dot_dot = refl }

compose-IsPlain : IsPlain (codes "compose.yaml")
unfolding contains_byte equal
compose-IsPlain = record { no_slash = refl; not_empty = refl; not_dot = refl; not_dot_dot = refl }

-- The two files of a directory below plain components are different.
files_apart :
    (v : Bytes) (vs : List Bytes)
    → All IsPlain (v ∷ vs)
    → equal
        (join_path (render true (v ∷ vs)) (codes ".env"))
        (join_path (render true (v ∷ vs)) (codes "compose.yaml"))
      ≡ false
unfolding join_path
files_apart v vs plain =
    rw
      (
        clean_child v vs (codes ".env") plain dot_env-IsPlain,
        clean_child v vs (codes "compose.yaml") plain compose-IsPlain,
        equal-append (render true (v ∷ vs)) (codes "/.env") (codes "/compose.yaml"),
      )
      (unfold equal in refl)

child_form :
    (v : Bytes) (vs : List Bytes) (w : Bytes)
    → render true (v ∷ vs) ++ (codes "/" ++ w) ≡ render true (v ∷ (vs ++ w ∷ []))
child_form v vs w = ap (◌∷◌ b'/') (sym (join-snoc v vs w))

child-IsPlain : (w : Bytes) → validate_stack_name w ≡ ok tt → IsPlain w
child-IsPlain [] h = let e : err bad_name ≡ ok tt = unfold validate_stack_name in h in cc
child-IsPlain (c ∷ s) h = name-IsPlain c s (IsName-bytes (c ∷ s) h)

-- The base directory is a path from the root of plain components, and files can be read.
module _ (o : Outside) (v : Bytes) (vs : List Bytes) (plain : All IsPlain (v ∷ vs))
    (based : o.compose_base_path ≡ render true (v ∷ vs))
    (reads : (p : Bytes) → o.read_fails p ≡ none) where
  stack_dir_at :
      (name : Bytes)
      → validate_stack_name name ≡ ok tt
      → stack_dir o.compose_base_path name ≡ ok (render true (v ∷ (vs ++ name ∷ [])))
  stack_dir_at name valid =
      ap (λ (b : Bytes). stack_dir b name) based
      ∙ stack_dir_lem v vs name plain valid
      ∙ ap ok (child_form v vs name)

  -- A stack that SaveStack has saved, as a new one or over one that is there, is what GetStack returns:
  -- managed, with this compose file and this environment, if the base directory is a path from the
  -- root of plain components and files can be read.
  pub save_stack-get_stack :
      (name yaml env : Bytes) (is_add : Bool) (w w' : World)
      → save_stack o name yaml env is_add w ≡ (ok tt, w')
      → get_stack o w' name
        ≡ ok (record {
          name = name;
          status = unknown;
          status_text = [];
          managed = true;
          compose_yaml = yaml;
          compose_env = env;
        })
  unfolding save_stack get_stack
  save_stack-get_stack name yaml env is_add w w' h =
      let put : Bytes → M (Unit {0}) =
        λ dir. place_stack o name dir is_add >>= λ _. write_stack o dir yaml env in
      let at_dir : Unit {0} → M (Unit {0}) =
        λ _. lift (stack_dir o.compose_base_path name) >>= put in
      let with_env : Unit {0} → M (Unit {0}) = λ _. lift (validate_env_file env) >>= at_dir in
      let with_yaml : Unit {0} → M (Unit {0}) =
        λ _. lift (validate_compose_yaml (o.unmarshal yaml)) >>= with_env in
      let (u, w1, valid, h1) = then_do-eq-ok (validate_stack_name name, w) with_yaml h in
      let (u2, w2, yaml_ok, h2) =
        then_do-eq-ok (validate_compose_yaml (o.unmarshal yaml), w1) with_env h1 in
      let (u3, w3, env_ok, h3) = then_do-eq-ok (validate_env_file env, w2) at_dir h2 in
      let (dir, w4, dir_ok, h4) = then_do-eq-ok (stack_dir o.compose_base_path name, w3) put h3 in
      let (u5, w5, placed, saved) =
        then_do-eq-ok (place_stack o name dir is_add w4) (λ _. write_stack o dir yaml env) h4 in
      let is_valid : validate_stack_name name ≡ ok tt =
        ap (λ (x : Result (Unit {0}) × World). x.0) valid in
      let there = stack_dir_at name is_valid in
      let found : stack_dir o.compose_base_path name ≡ ok dir =
        ap (λ (x : Result Bytes × World). x.0) dir_ok in
      let same : ok (render true (v ∷ (vs ++ name ∷ []))) ≡ ok dir = sym there ∙ found in
      let is_dir : render true (v ∷ (vs ++ name ∷ [])) ≡ dir = cc in
      let (listed, on_disk) = write_stack_files o dir yaml env w5 w' saved in
      let kept = All-append IsPlain (v ∷ vs) (name ∷ []) plain (child-IsPlain name is_valid, tt) in
      let apart : equal (join_path dir (codes ".env")) (join_path dir (codes "compose.yaml"))
          ≡ false =
        subst (λ d. equal (join_path d (codes ".env")) (join_path d (codes "compose.yaml")) ≡ false)
          is_dir (files_apart v (vs ++ name ∷ []) kept) in
      rw (found, get_stack, listed, load_saved o w' name dir yaml env w5.files reads apart on_disk)
        refl

-- What SetGlobalEnv has written is what GetGlobalEnv returns, if global.env can be read.
pub set_global_env-get_global_env :
    (o : Outside) (content : Bytes) (w w' : World)
    → o.read_fails (global_env_path o) ≡ none
    → set_global_env o content w ≡ (ok tt, w')
    → get_global_env o w' ≡ ok content
unfolding set_global_env get_global_env
set_global_env-get_global_env o content w w' reads h =
    let base : Bytes = o.compose_base_path in
    let put : Unit {0} → M (Unit {0}) =
      λ _. write_file_atomic o base (codes "global.env") content in
    let (u, w1, valid, h1) =
      then_do-eq-ok (validate_env_file content, w) (λ _. mkdir_all o base >>= put) h in
    let (u2, w2, made, saved) = then_do-eq-ok (mkdir_all o base w1) put h1 in
    let (there, e) = written o base (codes "global.env") content w2 w' saved in
    let found : lookup (global_env_path o) w'.files ≡ some content = rw e (
      unfold global_env_path in
      (lookup-insert (join_path base (codes "global.env")) (join_path base (codes "global.env"))
          content w2.files
        ∙ rw equal_refl refl)) in
    rw (found, get_global_env, reads) refl
