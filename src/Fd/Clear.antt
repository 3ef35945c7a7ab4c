-- ===== src/Fd/Clear.antt =====
-- fdclear and fdinit: all descriptors of a process at once.
use libtux.Base.{
  ℕ, zero, suc, ◌+◌, ◌≤◌, ◌<◌, ◌≡◌, ◌≢◌, ◌==◌, refl, true, false, none, inl, inr, arith, List, [],
  ◌∷◌, get_or, length, count, get_or-set_self, get_or-set_ne, pos, Bool-cases, Bool, ℤ, negsuc, ap,
  ◌∙◌, Option-cases,
}
use libtux.World.{Ptr, null, World, ok}
use libtux.Fd.{nofile, slot, fdremove, fdremove_x, fdhas_x, clear_loop, fdclear}
use libtux.Fd.Refs.{IsSound, holders}
use libtux.Fd.Table.{cleared, fdremove-IsSound, Releases-proc}

-- A number that names no open file is refused, and nothing changes.
pub fdremove-none : (fd : ℤ) (w : World) → slot w.proc.files fd ≡ null → fdremove fd w ≡ ok false w
unfolding fdremove fdremove_x fdhas_x
fdremove-none (pos n) w e = ground arith
fdremove-none (negsuc n) w e = refl

-- What the loop has done from `fd` on.
pub record Cleared (w v : World) (fd k : ℕ) : Type 0 where
  pub sound : IsSound v
  pub emptied : (j : ℕ) → fd ≤ j → j < fd + k → get_or v.proc.files j null ≡ null
  pub same_tux : v.proc.tux ≡ w.proc.tux
  pub same_cwd : v.proc.cwd_fd ≡ w.proc.cwd_fd
  pub below : (j : ℕ) → j < fd → get_or v.proc.files j null ≡ get_or w.proc.files j null

-- One round.
remove_round :
    (fd : ℕ) (w : World)
    → IsSound w
    → fd < nofile
    → (b : Bool) × (v : World) × (fdremove (pos fd) w ≡ ok b v) × Cleared w v fd 1
remove_round fd w s lt = elim (Bool-cases (get_or w.proc.files fd null == null)) [
  | inl free ↦ (
    false,
    w,
    fdremove-none (pos fd) w (ground arith),
    record {
      sound = s;
      emptied = λ j a b. let e : j ≡ fd = omega arith in rw e (ground arith);
      same_tux = refl;
      same_cwd = refl;
      below = λ j a. refl;
    },
  )
  | inr used ↦
      let (v, e, s', r) = fdremove-IsSound fd w s lt (ground arith) in
      let same = Releases-proc _ _ w v r in
      (
        true,
        cleared fd v,
        e,
        record {
          sound = s';
          emptied = λ j a b.
              let e : j ≡ fd = omega arith in
              rw e (get_or-set_self v.proc.files fd null null (ground (arith, s.size)));
          same_tux = ap (λ p. p.tux) same;
          same_cwd = ap (λ p. p.cwd_fd) same;
          below = λ j a.
              get_or-set_ne v.proc.files fd j null null (omega arith)
              ∙ ap (λ p. get_or p.files j null) same;
        },
      )
]

clear_loop-Cleared :
    (k fd : ℕ) (w : World)
    → IsSound w
    → fd + k ≤ nofile
    → (v : World) × (clear_loop k fd w ≡ ok tt v) × Cleared w v fd k
unfolding clear_loop fdremove
clear_loop-Cleared zero fd w s le = (
  w,
  refl,
  record {
    sound = s;
    emptied = λ j a b. absurd (omega arith);
    same_tux = refl;
    same_cwd = refl;
    below = λ j a. refl;
  },
)
clear_loop-Cleared (suc k) fd w s le =
    let (b, u, e, c) = remove_round fd w s (omega arith) in
    let (v, e', c') = clear_loop-Cleared k (suc fd) u c.sound (omega arith) in
    (
      v,
      rw e e',
      record {
        sound = c'.sound;
        emptied = λ j a b. ground (arith, c'.emptied j, c'.below j, c.emptied j);
        same_tux = c'.same_tux ∙ c.same_tux;
        same_cwd = c'.same_cwd ∙ c.same_cwd;
        below = λ j a. c'.below j (omega arith) ∙ c.below j a;
      },
    )

count-nulls :
    (p : Ptr) (files : List Ptr)
    → p ≢ null
    → ((j : ℕ) → j < length files → get_or files j null ≡ null)
    → count p files ≡ 0
count-nulls p [] n e = refl
count-nulls p (x ∷ files) n e =
    ground (arith, e 0 (omega arith), count-nulls p files n (λ j lt. e (suc j) (omega arith)))

-- What nobody holds is not there.
unheld : (v : World) (p : Ptr) → IsSound v → (p ≢ null → holders v.proc p ≡ 0) → v.fd_files p ≡ none
unheld v p s h = elim (Option-cases (v.fd_files p)) [
  | inl e ↦ e
  | inr (f, e) ↦ elim (Bool-cases (p == null)) [
    | inl z ↦ ground (arith, s.refs.not_null)
    | inr n ↦ absurd (ground (arith, s.refs.counted p, s.keeps p f, h))
  ]
]

unheld-Cleared :
    (w v : World) (p : Ptr)
    → Cleared w v 0 nofile
    → p ≢ w.proc.tux.fstdin
    → p ≢ w.proc.tux.fstdout
    → p ≢ w.proc.tux.fstderr
    → p ≢ w.proc.cwd_fd
    → p ≢ null
    → holders v.proc p ≡ 0
unheld-Cleared w v p c a b d f n =
    let nulls =
      count-nulls p v.proc.files n
        (λ j lt. c.emptied j (omega arith) (omega (arith, c.sound.size))) in
    ground (arith, nulls, c.same_tux, c.same_cwd)

-- fdclear returns with the counts right and every descriptor free. A file that is neither one of
-- libtux's own nor the working directory is gone.
pub fdclear-IsSound :
    (w : World)
    → IsSound w
    → (v : World) × (fdclear w ≡ ok tt v)
      × IsSound v
      × ((j : ℕ) → j < nofile → get_or v.proc.files j null ≡ null)
      × ((p : Ptr)
          → p ≢ w.proc.tux.fstdin
          → p ≢ w.proc.tux.fstdout
          → p ≢ w.proc.tux.fstderr
          → p ≢ w.proc.cwd_fd
          → v.fd_files p ≡ none)
unfolding fdclear
fdclear-IsSound w s =
    let (v, e, c) = clear_loop-Cleared nofile 0 w s (omega arith) in
    (
      v,
      e,
      c.sound,
      λ j lt. c.emptied j (omega arith) (omega arith),
      λ p a b d f. unheld v p c.sound (unheld-Cleared w v p c a b d f),
    )
