-- ===== src/AddrSpace/Paths.antt =====
-- procpath accepts exactly the C strings that lie in the guest's space and are not too long.
use libtux.Base.{
  ℕ, zero, suc, ◌+◌, ◌≤◌, ◌<◌, ◌≡◌, ◌≢◌, ◌==◌, refl, Option, some, arith, length, get_or,
  Bool-cases, inl, inr, ap, ◌∙◌, subst, sym,
}
use libtux.World.{Ptr, FilePath, World, ok}
use libtux.World.Memory.{bytes_at}
use libtux.AddrSpace.{as_fmptr}
use libtux.AddrSpace.Access.{strnlen, procpath, path_max}

-- The `n` bytes from `p` hold no NUL.
abbrev pub NoNul : (ℕ → ℕ) → Ptr → ℕ → Type 0
NoNul mem p n = (i : ℕ) → i < n → mem (p + i) ≢ 0

NoNul-suc : (mem : ℕ → ℕ) (p n : ℕ) → mem p ≢ 0 → NoNul mem (suc p) n → NoNul mem p (suc n)
NoNul-suc mem p n h rest zero lt e = h (ap mem (omega arith) ∙ e)
NoNul-suc mem p n h rest (suc i) lt e = rest i (omega arith) (ap mem (omega arith) ∙ e)

strnlen_lem : (mem : ℕ → ℕ) (p n : ℕ) → (strnlen mem p n ≤ n) × NoNul mem p (strnlen mem p n)
unfolding strnlen
strnlen_lem mem p zero = (omega arith, λ i h. absurd (omega arith))
strnlen_lem mem p (suc n) =
    let (le, no_nul) = strnlen_lem mem (suc p) n in
    elim (Bool-cases (mem p == 0)) [
      | inl e ↦ rw e (omega arith, λ i h. absurd (omega arith))
      | inr e ↦ rw e (omega (arith, le), NoNul-suc mem p _ (ground arith) no_nul)
    ]

-- The length of a string that ends within the limit.
strnlen-eq :
    (mem : ℕ → ℕ) (p n k : ℕ) → n ≤ k → NoNul mem p n → mem (p + n) ≡ 0 → strnlen mem p k ≡ n
unfolding strnlen
strnlen-eq mem p zero zero le no_nul e = refl
strnlen-eq mem p (suc n) zero le no_nul e = absurd (omega arith)
strnlen-eq mem p zero (suc k) le no_nul e =
    let z : mem p ≡ 0 = ap mem (omega arith) ∙ e in ground arith
strnlen-eq mem p (suc n) (suc k) le no_nul e =
    let first : mem p ≢ 0 = λ z. no_nul 0 (omega arith) (ap mem (omega arith) ∙ z) in
    let rest =
      strnlen-eq mem (suc p) n k (omega arith)
        (λ i lt z. no_nul (suc i) (omega arith) (ap mem (omega arith) ∙ z))
        (ap mem (omega arith) ∙ e) in
    ground (arith, first, rest)

length-bytes_at : (mem : ℕ → ℕ) (p n : ℕ) → length (bytes_at mem p n) ≡ n
length-bytes_at mem p zero = refl
length-bytes_at mem p (suc n) = ap suc (length-bytes_at mem (suc p) n)

get_or-bytes_at : (mem : ℕ → ℕ) (p n i : ℕ) → i < n → get_or (bytes_at mem p n) i 0 ≡ mem (p + i)
get_or-bytes_at mem p zero i h = absurd (omega arith)
get_or-bytes_at mem p (suc n) zero h = ap mem (omega arith)
get_or-bytes_at mem p (suc n) (suc i) h =
    get_or-bytes_at mem (suc p) n i (omega arith) ∙ ap mem (omega arith)

-- A C string at a guest address: all of it, its NUL included, lies in the space.
pub record IsPath (w : World) (p : Ptr) (path : FilePath) : Type 0 where
  pub from : w.proc.p_as.minaddr ≤ p
  pub limit : p + length path < w.proc.p_as.maxaddr
  pub short : length path ≤ path_max
  pub ends : w.mem (p + length path) ≡ 0
  pub no_nul : NoNul w.mem p (length path)
  pub bytes : (i : ℕ) → i < length path → get_or path i 0 ≡ w.mem (p + i)

-- procpath changes nothing.
pub procpath-same : (p : ℕ) (w : World) → (found : Option FilePath) × (procpath p w ≡ ok found w)
unfolding procpath
procpath-same p w = (_, refl)

-- What procpath accepts is a C string in the guest's space, of no more than TUX_PATH_MAX bytes
-- without its NUL; procpath changes nothing.
pub procpath_sound :
    (w v : World) (p : Ptr) (path : FilePath)
    → procpath p w ≡ ok (some path) v
    → (v ≡ w) × IsPath w p path
unfolding procpath as_fmptr
procpath_sound w v p path e =
    let n = strnlen w.mem p path_max in
    let same : path ≡ bytes_at w.mem p n = ground arith in
    let len : length path ≡ n = ap length same ∙ length-bytes_at w.mem p n in
    let (le, no_nul) = strnlen_lem w.mem p path_max in
    (
      ground arith,
      record {
        from = ground arith;
        limit = ground arith;
        short = omega arith;
        ends = ground arith;
        no_nul = subst (NoNul w.mem p) (sym len) no_nul;
        bytes = λ i lt. ap (λ l. get_or l i 0) same ∙ get_or-bytes_at w.mem p n i (omega arith);
      },
    )

-- Every C string of the guest that is short enough is accepted, with its bytes.
pub procpath_complete :
    (w : World) (p n : ℕ)
    → 0 < w.proc.p_as.minaddr
    → w.proc.p_as.minaddr ≤ p
    → p + n < w.proc.p_as.maxaddr
    → n ≤ path_max
    → NoNul w.mem p n
    → w.mem (p + n) ≡ 0
    → procpath p w ≡ ok (some (bytes_at w.mem p n)) w
unfolding procpath as_fmptr
procpath_complete w p n nz from limit short no_nul ends =
    ground (arith, strnlen-eq w.mem p n path_max short no_nul ends)
