-- ===== src/Config/Paths/Reports.antt =====
-- Where the report files lie.
use Prim.Native.Char.{code}
use text.Mathlib.TextLemmas.{nil-append, cons-append}
use batch_job_controller.Base.{
  String, Bool, true, false, List, [], ◌∷◌, ◌++◌, ◌≡◌, ◌≢◌, refl, ◌∙◌, ap, arith, ◌<>◌, ◌==◌,
  eq_iff, eqb, split, split_from, Bool-cases, inl, inr,
}
use mathlib.Core.List.{reverse}
use batch_job_controller.Config.{Config, report_file_name}
use batch_job_controller.Config.Paths.{is_rooted, resolve, resolve_all, render, clean, join}

slash_append : (t : String) → "/" <> t ≡ String.◌∷◌ "/" t
slash_append t = cons-append "/" "" t ∙ ap (λ (k : String). String.◌∷◌ "/" k) (nil-append t)

split_from-append :
    (cur s t : String) → split_from b'/' cur (s <> "/" <> t) ≡ split_from b'/' cur s ++ split b'/' t
unfolding split
split_from-append cur String.[] t = rw (nil-append, slash_append) refl
split_from-append cur (String.◌∷◌ c s) t = rw cons-append (elim (Bool-cases (eqb (code c) b'/')) [
  | inl y ↦ rw y (ap (λ (l : List String). cur ∷ l) (split_from-append "" s t))
  | inr n ↦ rw n (split_from-append (cur <> String.◌∷◌ c String.[]) s t)
])

pub split-append : (s t : String) → split b'/' (s <> "/" <> t) ≡ split b'/' s ++ split b'/' t
unfolding split
split-append s t = split_from-append "" s t

resolve_all-append :
    (rooted : Bool) (stack xs ys : List String)
    → resolve_all rooted stack (xs ++ ys) ≡ resolve_all rooted (resolve_all rooted stack xs) ys
unfolding resolve_all
resolve_all-append rooted stack [] ys = refl
resolve_all-append rooted stack (x ∷ xs) ys =
    resolve_all-append rooted (resolve rooted stack x) xs ys

-- One element of a path that names an entry: not empty, without a slash, and neither "." nor "..".
pub record IsPlain (part : String) : Type 0 where
  pub whole : split b'/' part ≡ part ∷ []
  pub named : part ≢ ""
  pub not_here : part ≢ "."
  pub not_up : part ≢ ".."

resolve_plain :
    (rooted : Bool) (stack : List String) (part : String)
    → IsPlain part
    → resolve rooted stack part ≡ part ∷ stack
unfolding resolve
resolve_plain rooted stack part is =
    ground (arith, eq_iff part "", eq_iff part ".", eq_iff part "..")

resolve_up :
    (rooted : Bool) (part : String) (stack : List String)
    → IsPlain part
    → resolve rooted (part ∷ stack) ".." ≡ stack
unfolding resolve
resolve_up true part stack is = ground (arith, eq_iff part "..", is.not_up)
resolve_up false part stack is = ground (arith, eq_iff part "..", is.not_up)

is_rooted_append : (dir t : String) → dir ≢ "" → is_rooted (dir <> t) ≡ is_rooted dir
is_rooted_append String.[] t h = absurd (h refl)
is_rooted_append (String.◌∷◌ c s) t h = rw cons-append refl

-- the elements of the directory, the execution and the name, before the empty ones and the dots are resolved
split-report :
    (dir id name : String)
    → split b'/' (dir <> "/" <> id <> "/" <> name)
      ≡ split b'/' dir ++ (split b'/' id ++ split b'/' name)
split-report dir id name = rw (split-append, split-append) refl

resolve_all_plain :
    (rooted : Bool) (stack : List String) (part : String)
    → IsPlain part
    → resolve_all rooted stack (split b'/' part) ≡ part ∷ stack
unfolding resolve_all
resolve_all_plain rooted stack part is = rw is.whole (resolve_plain rooted stack part is)

resolve_all_up :
    (rooted : Bool) (part : String) (stack : List String)
    → IsPlain part
    → resolve_all rooted (part ∷ stack) (split b'/' "..") ≡ stack
unfolding resolve_all split
resolve_all_up rooted part stack is = resolve_up rooted part stack is

resolve_all_twice_up :
    (rooted : Bool) (id : String) (base : List String) (first more : String)
    → IsPlain id
    → IsPlain first
    → resolve_all rooted
        (id ∷ base)
        (split b'/' (first <> "/" <> ".." <> "/" <> ".." <> "/" <> more))
      ≡ resolve_all rooted base (split b'/' more)
resolve_all_twice_up rooted id base first more plain is =
    rw
      (
        split-append first (".." <> "/" <> ".." <> "/" <> more),
        split-append ".." (".." <> "/" <> more),
        split-append ".." more,
        resolve_all-append,
        resolve_all-append,
        resolve_all-append,
        resolve_all_plain rooted (id ∷ base) first is,
        resolve_all_up rooted first (id ∷ base) is,
        resolve_all_up rooted id base plain,
      )
      refl

module _ (cfg : Config) (id : String) (here : cfg.report_directory ≢ "") (plain : IsPlain id) where
  abbrev dir : String
  dir = cfg.report_directory

  abbrev below : String → String
  below name = render (is_rooted dir) (
      reverse (
        resolve_all (is_rooted dir) (id ∷ resolve_all (is_rooted dir) [] (split b'/' dir))
          (split b'/' name)))

  not_empty : (dir == "") ≡ false
  not_empty = elim (Bool-cases (dir == "")) [
    | inl y ↦ absurd (here ((eq_iff dir "").0 y))
    | inr n ↦ n
  ]

  resolved :
      (name : String)
      → resolve_all (is_rooted dir) [] (split b'/' (dir <> "/" <> id <> "/" <> name))
        ≡ resolve_all
            (is_rooted dir)
            (id ∷ resolve_all (is_rooted dir) [] (split b'/' dir))
            (split b'/' name)
  resolved name =
      rw (split-report dir id name, resolve_all-append, resolve_all-append)
        (ap (λ (S : List String). resolve_all (is_rooted dir) S (split b'/' name))
          (resolve_all_plain (is_rooted dir) (resolve_all (is_rooted dir) [] (split b'/' dir)) id
            plain))

  clean-below : (name : String) → clean (dir <> "/" <> id <> "/" <> name) ≡ below name
  unfolding clean
  clean-below name =
      rw (is_rooted_append dir ("/" <> id <> "/" <> name) here)
        (ap (λ (S : List String). render (is_rooted dir) (reverse S)) (resolved name))

  report_file_name-below : (name : String) → report_file_name cfg id name ≡ below name
  unfolding report_file_name join
  report_file_name-below name = rw not_empty (clean-below name)

  -- A name of a plain element and two elements ".." leaves the directory of its execution, if that is a
  -- plain element too and the report directory is not empty: the file lies where what follows them leads
  -- to from the report directory, which may again be out of it.
  pub report_file_outside :
      (first more : String)
      → IsPlain first
      → report_file_name cfg id (first <> "/" <> ".." <> "/" <> ".." <> "/" <> more)
        ≡ clean (dir <> "/" <> more)
  unfolding clean
  report_file_outside first more is =
      rw
        (
          report_file_name-below,
          resolve_all_twice_up (is_rooted dir) id (resolve_all (is_rooted dir) [] (split b'/' dir))
              first more plain is,
          is_rooted_append dir ("/" <> more) here,
          split-append,
          resolve_all-append,
        )
        refl
