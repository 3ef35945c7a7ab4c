-- ===== src/Dispatch/Served.antt =====
-- Which numbers src/sys.c and src/arch/x64/sys.c have a case for, in a build with CONFIG_THREADS.
use libtux.Base.{
  ℕ, ◌≡◌, ◌==◌, refl, ap, ◌∙◌, Bool, true, false, not, ◌&&◌, ◌||◌, List, [], ◌∷◌, Option, none,
  some, arith, inl, inr, ◌⊎◌, if◌then◌else◌, Bool-cases, Option-cases,
}
use libtux.World.{World, Cmd, aborted}
use libtux.Threads.{Outcome}
use libtux.Dispatch.Number.{Name}
use libtux.Dispatch.Arch.{
  Arch, x64, arm64, numbers, decode, case_of, run_case, syshandle, x64_case, arch_syshandle,
  x64_first, switch, lookup, or_else,
}
use libtux.Dispatch.Decode.{In, here, there, In-lookup}
use libtux.Dispatch.Handlers.{Args, Setup, common}

-- The numbers of the calls that are served.
abbrev pub served : Arch → List ℕ
served x64 =
    0 ∷ 1 ∷ 2 ∷ 3 ∷ 4 ∷ 5 ∷ 6 ∷ 8 ∷ 9 ∷ 10 ∷ 11 ∷ 12 ∷ 13 ∷ 14 ∷ 15 ∷ 16 ∷ 17 ∷ 19 ∷ 20 ∷ 21 ∷ 24
    ∷ 25 ∷ 39 ∷ 41 ∷ 56 ∷ 60 ∷ 63 ∷ 72 ∷ 74 ∷ 76 ∷ 77 ∷ 79 ∷ 80 ∷ 81 ∷ 82 ∷ 83 ∷ 87 ∷ 89 ∷ 90 ∷ 91
    ∷ 92 ∷ 93 ∷ 97 ∷ 99 ∷ 137 ∷ 157 ∷ 158 ∷ 186 ∷ 191 ∷ 192 ∷ 201 ∷ 202 ∷ 203 ∷ 204 ∷ 217 ∷ 218
    ∷ 228 ∷ 231 ∷ 257 ∷ 258 ∷ 262 ∷ 263 ∷ 264 ∷ 267 ∷ 269 ∷ 273 ∷ 280 ∷ 302 ∷ 318 ∷ 324 ∷ 332 ∷ 334
    ∷ []
served arm64 =
    8 ∷ 9 ∷ 17 ∷ 25 ∷ 29 ∷ 34 ∷ 35 ∷ 38 ∷ 43 ∷ 45 ∷ 46 ∷ 48 ∷ 49 ∷ 50 ∷ 52 ∷ 55 ∷ 56 ∷ 57 ∷ 61 ∷ 62
    ∷ 63 ∷ 64 ∷ 65 ∷ 66 ∷ 67 ∷ 78 ∷ 79 ∷ 80 ∷ 82 ∷ 88 ∷ 93 ∷ 94 ∷ 96 ∷ 98 ∷ 99 ∷ 113 ∷ 122 ∷ 123
    ∷ 124 ∷ 134 ∷ 135 ∷ 139 ∷ 160 ∷ 163 ∷ 167 ∷ 172 ∷ 178 ∷ 179 ∷ 198 ∷ 214 ∷ 215 ∷ 216 ∷ 220 ∷ 222
    ∷ 226 ∷ 261 ∷ 278 ∷ 283 ∷ 291 ∷ 293 ∷ []

abbrev pub is_among : ℕ → List ℕ → Bool
is_among n [] = false
is_among n (m ∷ ms) = n == m || is_among n ms

abbrev is_case : Option (Cmd Outcome) → Bool
is_case none = false
is_case (some call) = true

abbrev all_known : Arch → List ℕ → Bool
all_known arch [] = true
all_known arch (n ∷ ns) =
    (elim (decode arch n) as (λ o. Bool) [ none ↦ false | some name ↦ true ]) && all_known arch ns

-- Every number that is served has a name.
known : (arch : Arch) → all_known arch (served arch) ≡ true
unfolding decode lookup
known x64 = refl
known arm64 = refl

known-among :
    (arch : Arch) (n : ℕ) (ns : List ℕ)
    → all_known arch ns ≡ true
    → decode arch n ≡ none
    → is_among n ns ≡ false
known-among arch n [] h e = refl
known-among arch n (m ∷ ns) h e = elim (Bool-cases (n == m)) [
  | inr ne ↦ rw ne (known-among arch n ns (ground arith) e)
  | inl same ↦
      let n_m : n ≡ m = ground arith in
      let e' : decode arch m ≡ none = rw (← n_m) e in absurd (ground (arith, e', h))
]

decoded-In :
    (arch : Arch) (n : ℕ) (name : Name) → decode arch n ≡ some name → In n name (numbers arch)
unfolding decode
decoded-In arch n name e = In-lookup n name (numbers arch) e

module _ (s : Setup) (r : Args) where
  abbrev built : Setup
  built = record s { threads = true }

  -- The case that a name has on a machine, its own first.
  abbrev pub found : Arch → Name → Option (Cmd Outcome)
  found x64 name = if is_case (x64_case r name) then x64_case r name else case_of x64 built r name
  found arm64 name = case_of arm64 built r name

  -- Every entry of a table has a case if its number is served, and only then.
  abbrev fits : Arch → List (ℕ × Name) → Bool
  fits arch [] = true
  fits arch ((n, name) ∷ rest) =
      (if is_among n (served arch)
        then is_case (found arch name)
        else not (is_case (found arch name)))
      && fits arch rest

  numbers_fit : (arch : Arch) → fits arch (numbers arch) ≡ true
  unfolding x64_case case_of common
  numbers_fit x64 = refl
  numbers_fit arm64 = refl

  fits-In :
      (arch : Arch) (n : ℕ) (name : Name) (t : List (ℕ × Name))
      → fits arch t ≡ true
      → In n name t
      → is_case (found arch name) ≡ is_among n (served arch)
  fits-In arch n name [] h i = elim i [ ]
  fits-In arch n name (_ ∷ rest) h here = ground arith
  fits-In arch n name ((m, other) ∷ rest) h (there i) = fits-In arch n name rest (ground arith) i

  -- The call runs the case that it has.
  first-found :
      (own shared : Option (Cmd Outcome))
      → or_else own (run_case shared) ≡ run_case (if is_case own then own else shared)
  unfolding run_case
  first-found none shared = refl
  first-found (some call) shared = refl

  named :
      (arch : Arch) (n : ℕ) (name : Name)
      → decode arch n ≡ some name
      → arch_syshandle arch built n r ≡ run_case (found arch name)
  unfolding arch_syshandle x64_first syshandle switch
  named x64 n name e = rw e (first-found (x64_case r name) (case_of x64 built r name))
  named arm64 n name e = rw e refl

  unnamed :
      (arch : Arch) (n : ℕ) (w : World)
      → decode arch n ≡ none
      → arch_syshandle arch built n r w ≡ aborted
  unfolding arch_syshandle x64_first syshandle switch run_case
  unnamed x64 n w e = rw e refl
  unnamed arm64 n w e = rw e refl

  -- What a case is for the answer.
  abbrev pub Served : Arch → ℕ → Name → Type 0
  Served arch n name =
      (decode arch n ≡ some name)
      × (call : Cmd Outcome) × (found arch name ≡ some call)
      × (arch_syshandle arch built n r ≡ call)

  case-run :
      (c : Option (Cmd Outcome))
      → is_case c ≡ true
      → (call : Cmd Outcome) × (c ≡ some call) × (run_case c ≡ call)
  unfolding run_case
  case-run none h = absurd (ground arith)
  case-run (some call) h = (call, refl, refl)

  no_case : (c : Option (Cmd Outcome)) (w : World) → is_case c ≡ false → run_case c w ≡ aborted
  unfolding run_case
  no_case none w h = refl
  no_case (some call) w h = absurd (ground arith)

  -- In a build with CONFIG_THREADS and with any registers, a call by one of 72 numbers on x64, and
  -- of 60 on arm64, runs the case that its name has, on x64 its own before the shared one; a call
  -- by any other number, named or not, fails an assertion and aborts the host.
  pub arch_syshandle-Served :
      (arch : Arch) (n : ℕ)
      → ((is_among n (served arch) ≡ true) × (name : Name) × Served arch n name)
        ⊎ ((is_among n (served arch) ≡ false)
            × ((w : World) → arch_syshandle arch built n r w ≡ aborted))
  arch_syshandle-Served arch n = elim (Option-cases (decode arch n)) [
    | inl e ↦ inr (known-among arch n (served arch) (known arch) e, λ w. unnamed arch n w e)
    | inr (name, e) ↦
        let fit : is_case (found arch name) ≡ is_among n (served arch) =
          fits-In arch n name (numbers arch) (numbers_fit arch) (decoded-In arch n name e) in
        elim (Bool-cases (is_among n (served arch))) [
          | inl is ↦
              let (call, at, runs) = case-run (found arch name) (fit ∙ is) in
              inl (is, name, (e, call, at, named arch n name e ∙ runs))
          | inr not_in ↦ inr (
            not_in,
            λ w.
                ap (λ (c : Cmd Outcome). c w) (named arch n name e)
                ∙ no_case (found arch name) w (fit ∙ not_in),
          )
        ]
  ]
