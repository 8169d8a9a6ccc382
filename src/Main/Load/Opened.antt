-- ===== src/Main/Load/Opened.antt =====
-- Which file `LoadConfigFile` (src/Main.cxx) runs.
use qrelay.Common.{
  ℕ, ◌≡◌, ◌≢◌, inl, inr, refl, sym, ap, ◌∙◌, subst, true, false, List, [], ◌∷◌, ◌++◌, Option, none,
  some, Bytes, codes, Lacks, Bool-cases, arith, ==_iff, ◌==◌,
}
use qrelay.Exception.{completed, on_completed_cases, completed_injective}
use qrelay.Instance.{Instance}
use qrelay.Main.{Platform, Call, run_script}
use qrelay.Main.Load.{
  Environment, Process, is_absolute, resolve_path, before_slash, before_last_slash, unless_root,
  containing_directory, change_directory, change_to, chdir_containing_directory, run_loaded,
  load_config_file,
}

-- The file for a path that is given in a directory. A relative path with a slash stands for a file
-- in the directory that it names, below that directory.
pub data IsOpened (directory path file : Bytes) : Type 0 where
  here : Lacks b'/' path → file ≡ directory ++ b'/' ∷ path → IsOpened directory path file
  absolute : (s : Bytes) → path ≡ b'/' ∷ s → file ≡ path → IsOpened directory path file
  below :
      (c : ℕ) (parent name : Bytes)
      → path ≡ c ∷ parent ++ b'/' ∷ name
      → Lacks b'/' name
      → c ≢ b'/'
      → file ≡ (directory ++ b'/' ∷ c ∷ parent) ++ b'/' ∷ path
      → IsOpened directory path file

-- No slash, or the parts around the last one.
data IsCut (path : Bytes) : Option Bytes → Type 0 where
  no_slash : Lacks b'/' path → IsCut path none
  last_slash :
      (parent name : Bytes)
      → path ≡ parent ++ b'/' ∷ name
      → Lacks b'/' name
      → IsCut path (some parent)

before_slash-IsCut :
    (c : ℕ) (s : Bytes) (o : Option Bytes) → IsCut s o → IsCut (c ∷ s) (before_slash c o)
before_slash-IsCut c s none (no_slash lacks) = elim (Bool-cases (c == b'/')) [
  | inl e ↦
      subst (IsCut (c ∷ s)) (sym (slash_first c e))
        (last_slash [] s (ap (λ d. d ∷ s) ((==_iff c b'/').0 e)) lacks)
  | inr e ↦ subst (IsCut (c ∷ s)) (sym (other_first c e)) (no_slash (ground arith, lacks))
]
  where
    slash_first : (d : ℕ) → (d == b'/') ≡ true → before_slash d none ≡ some []
    slash_first d e = rw e

    other_first : (d : ℕ) → (d == b'/') ≡ false → before_slash d none ≡ none
    other_first d e = rw e
before_slash-IsCut c s (some t) (last_slash parent name e lacks) =
    last_slash (c ∷ parent) name (ap (◌∷◌ c) e) lacks

before_last_slash-IsCut : (path : Bytes) → IsCut path (before_last_slash path)
before_last_slash-IsCut [] = no_slash tt
before_last_slash-IsCut (c ∷ s) =
    before_slash-IsCut c s (before_last_slash s) (before_last_slash-IsCut s)

resolve_relative :
    (directory path : Bytes)
    → is_absolute path ≡ false
    → resolve_path directory path ≡ directory ++ b'/' ∷ path
resolve_relative directory path h = rw h

resolve_absolute : (directory s : Bytes) → resolve_path directory (b'/' ∷ s) ≡ b'/' ∷ s
resolve_absolute directory s = refl

Lacks-is_absolute : (path : Bytes) → Lacks b'/' path → is_absolute path ≡ false
Lacks-is_absolute [] h = refl
Lacks-is_absolute (c ∷ s) h = ground arith

below_parent :
    (directory path target : Bytes) (c : ℕ) (parent name : Bytes)
    → path ≡ c ∷ parent ++ b'/' ∷ name
    → Lacks b'/' name
    → target ≡ resolve_path directory (c ∷ parent)
    → IsOpened directory path (resolve_path target path)
below_parent directory path target c parent name e lacks t = elim (Bool-cases (c == b'/')) [
  | inl f ↦
      let first : path ≡ b'/' ∷ (parent ++ b'/' ∷ name) =
        e ∙ ap (λ d. d ∷ (parent ++ b'/' ∷ name)) ((==_iff c b'/').0 f) in
      absolute (parent ++ b'/' ∷ name) first (ap (resolve_path target) first ∙ sym first)
  | inr f ↦
      below c parent name e lacks (λ g. cc)
        (resolve_relative target path (ap is_absolute e ∙ f)
          ∙ ap (λ d. d ++ b'/' ∷ path) (t ∙ resolve_relative directory (c ∷ parent) f))
]

module _ (env : Environment) where
  change_directory_made :
      (directory path : Bytes)
      → env.is_directory (resolve_path directory path) ≡ true
      → change_directory env directory path ≡ completed (resolve_path directory path)
  unfolding change_directory
  change_directory_made directory path e = rw e

  change_directory_cases :
      (directory path target : Bytes)
      → change_directory env directory path ≡ completed target
      → target ≡ resolve_path directory path
  unfolding change_directory
  change_directory_cases directory path target h =
      elim (Bool-cases (env.is_directory (resolve_path directory path))) [
        | inl e ↦ completed_injective (sym h ∙ change_directory_made directory path e)
        | inr e ↦ cc
      ]

  change_to-IsOpened :
      (directory path target : Bytes) (o : Option Bytes)
      → IsCut path o
      → change_to env directory (unless_root o) ≡ completed target
      → IsOpened directory path (resolve_path target path)
  unfolding change_to
  change_to-IsOpened directory path target none (no_slash lacks) h = here lacks (
      resolve_relative target path (Lacks-is_absolute path lacks)
      ∙ ap (λ d. d ++ b'/' ∷ path) (sym (completed_injective h)))
  change_to-IsOpened directory path target (some t) (last_slash [] name e lacks) h =
      absolute name e (ap (resolve_path target) e ∙ sym e)
  change_to-IsOpened directory path target (some t) (last_slash (c ∷ parent) name e lacks) h =
      below_parent directory path target c parent name e lacks
        (change_directory_cases directory (c ∷ parent) target h)

  run_loaded_cases :
      (p : Platform) (i j : Instance) (o : Option (List Call))
      → run_loaded env p i o ≡ completed j
      → (calls : List Call) × (o ≡ some calls) × (run_script p i calls ≡ completed j)
  unfolding run_loaded
  run_loaded_cases p i j none h = cc
  run_loaded_cases p i j (some calls) h = (calls, refl, h)

  -- LoadConfigFile completes only if a script stands in the file that the path refers to, by the
  -- rule of IsOpened (for a relative path with a slash, below the directory that it names, taken
  -- twice), and that script ends without an error; the process is then in the root directory.
  pub load_config_file_cases :
      (p : Platform) (process q : Process) (path : Bytes)
      → load_config_file env p process path ≡ completed q
      → (file : Bytes) × (calls : List Call) × IsOpened process.directory path file
        × (env.script file ≡ some calls)
        × (run_script p process.instance_of calls ≡ completed q.instance_of)
        × (q.directory ≡ codes "/")
  unfolding load_config_file chdir_containing_directory containing_directory
  load_config_file_cases p process q path h =
      let (target, changed, loaded) =
        on_completed_cases (change_to env process.directory (containing_directory path)) _ q h in
      let (i, ran, returned) =
        on_completed_cases
          (run_loaded env p process.instance_of (env.script (resolve_path target path))) _ q
          loaded in
      let (root, to_root, done) =
        on_completed_cases (change_directory env target (codes "/")) _ q returned in
      let (calls, found, script) =
        run_loaded_cases p process.instance_of i (env.script (resolve_path target path)) ran in
      let ended : record { instance_of = i; directory = root } ≡ q = completed_injective done in
      (
        resolve_path target path,
        calls,
        change_to-IsOpened process.directory path target (before_last_slash path)
            (before_last_slash-IsCut path) changed,
        found,
        script ∙ ap (λ (r : Process). completed r.instance_of) ended,
        sym (ap (λ (r : Process). r.directory) ended)
            ∙ change_directory_cases target (codes "/") root to_root,
      )
