-- ===== src/Process/Layout.antt =====
-- What stacksetup leaves on the stack, from the stack pointer up.
use libtux.Base.{
  ℕ, ◌+◌, ◌-◌, ◌*◌, ◌≤◌, ◌<◌, ◌≡◌, refl, sym, subst, inl, true, ◌&&◌, List, [], ◌∷◌, ◌++◌, All,
  if◌then◌else◌, Option, none, some, arith, length, leb, ltb, length-append,
}
use libtux.World.{Ptr, AddrSpace, World, Cmd, pure, ◌>>=◌, ◌>>◌}
use libtux.World.Total.{Holds, Holds-bind, Holds-weaken}
use libtux.World.Frame.{Kept, Kept-trans}
use libtux.World.Words.{Kept-widen}
use libtux.Align.{word_mod}
use libtux.AddrSpace.{as_toptr}
use libtux.Elf.Program.{LoadInfo}
use libtux.Process.Stack.{
  arg_block, string_loop, store_word, word_at, pointer_loop, store_words, auxv, finish_stack,
  stacksetup,
}
use libtux.Process.Frame.{
  WordsAt, StringsAt, IsWord, Laid, total, Laid-cons, WordsAt-Kept, WordsAt-append, StringsAt-Kept,
  StringsDone, string_loop-StringsDone, store_words-Laid, pointer_loop-Laid, stored,
}

-- One block of words after another.
Laid-append :
    (w u v : World) (a : ℕ) (xs ys : List ℕ)
    → Laid w a xs u
    → Laid u (a + 8 * length xs) ys v
    → Laid w a (xs ++ ys) v
Laid-append w u v a xs ys (k, h) (k', h') =
    let n = length-append xs ys in
    let top = a + 8 * length (xs ++ ys) in
    (
      Kept-trans a top w u v
          (Kept-widen a (a + 8 * length xs) a top w u (omega arith) (omega arith) k)
          (Kept-widen (a + 8 * length xs) (a + 8 * length xs + 8 * length ys) a top u v
            (omega arith) (omega arith) k'),
      WordsAt-append v.mem a xs ys
          (WordsAt-Kept (a + 8 * length xs) (a + 8 * length xs + 8 * length ys) a u v xs k'
            (inl (omega arith)) h)
          h',
    )

-- The words of the auxiliary vector that are not constants.
pub record HasWords (info : LoadInfo) (pagesize : ℕ) : Type 0 where
  pub ldbase : IsWord info.ldbase
  pub elfphnum : IsWord info.elfphnum
  pub elfphentsize : IsWord info.elfphentsize
  pub elfentry : IsWord info.elfentry
  pub page : IsWord pagesize

module _ (space : AddrSpace) (small : space.maxaddr < word_mod) (info : LoadInfo) (pagesize : ℕ)
    (words : HasWords info pagesize) where
  InSpace : Ptr → Type 0
  InSpace p = (space.minaddr ≤ p) × (p < space.maxaddr)

  auxv_words : (p : Ptr) → InSpace p → All IsWord (auxv info p pagesize)
  unfolding InSpace
  auxv_words p at = ground (arith, words)

  finish_stack-Laid :
      (w : World) (argv at : ℕ) (p : Ptr) (ps : List Ptr)
      → WordsAt w.mem argv (p ∷ ps)
      → argv + 8 ≤ at
      → InSpace p
      → Holds
          (λ _ v. Laid w at (0 ∷ 0 ∷ auxv info p pagesize) v)
          (finish_stack space info pagesize argv at w)
  unfolding finish_stack as_toptr InSpace
  finish_stack-Laid w argv at p ps h le inside =
      Holds-bind (λ _ u. Laid w at (0 ∷ 0 ∷ []) u)
        (λ _ v. Laid w at (0 ∷ 0 ∷ auxv info p pagesize) v) (store_words at (0 ∷ 0 ∷ []) w) _
        (store_words-Laid w at (0 ∷ 0 ∷ []) (omega arith, (omega arith, tt)))
        λ _ u (kept, zeros).
          let first : word_at u.mem argv ≡ p =
            (WordsAt-Kept at (at + 16) argv w u (p ∷ []) kept (inl (omega arith)) (h.0, tt)).0 in
          let passes : (leb space.minaddr p && ltb p space.maxaddr) ≡ true = ground arith in
          rw (first, passes)
            (Holds-weaken _ _ (store_words (at + 16) (auxv info p pagesize) u)
              (store_words-Laid u (at + 16) (auxv info p pagesize) (auxv_words p inside))
              λ _ v done.
                Laid-append w u v at (0 ∷ 0 ∷ []) (auxv info p pagesize) (kept, zeros) done)

  -- The words from the stack pointer on: the number of arguments, the pointers to them, two NULLs and
  -- the auxiliary vector.
  abbrev pub frame : List (List ℕ) → Ptr → List Ptr → List ℕ
  frame args p ps = length args ∷ ((p ∷ ps) ++ 0 ∷ 0 ∷ auxv info p pagesize)

  abbrev pub top : ℕ
  top = info.stack + info.stacksize

  -- The stack pointer is two blocks below the top. From there on stands the frame, whose pointers lead
  -- to the strings in the last block; no other memory has changed.
  pub record IsStack (args : List (List ℕ)) (w : World) (sp : Ptr) (v : World) : Type 0 where
    pub first : Ptr
    pub others : List Ptr
    pub place : sp ≡ top - 2 * arg_block
    pub laid : WordsAt v.mem sp (frame args first others)
    pub strings : StringsAt v.mem (top - arg_block) top (first ∷ others) args
    pub kept : Kept (top - 2 * arg_block) top w v

  -- Nothing of it if the strings have no room.
  abbrev pub StackResult : List (List ℕ) → World → Option Ptr → World → Type 0
  StackResult args w none v = Kept (top - 2 * arg_block) top w v × (arg_block ≤ total args)
  StackResult args w (some sp) v = IsStack args w sp v

  abbrev pub sp : Ptr
  sp = top - 2 * arg_block

  -- Everything that the frame says is in place.
  frame-IsStack :
      (args : List (List ℕ)) (w u v : World) (p : Ptr) (ps : List Ptr)
      → Kept (top - arg_block) top w u
      → StringsAt u.mem (top - arg_block) top (p ∷ ps) args
      → length (p ∷ ps) ≡ length args
      → length args ≤ 471
      → 2 * arg_block ≤ top
      → Laid u sp (frame args p ps) v
      → IsStack args w sp v
  frame-IsStack args w u v p ps kept strings e few big (written, laid) =
      let n = length-append (p ∷ ps) (0 ∷ 0 ∷ auxv info p pagesize) in
      let stop = sp + 8 * length (frame args p ps) in
      record {
        first = p;
        others = ps;
        place = refl;
        laid = laid;
        strings =
            StringsAt-Kept sp stop (top - arg_block) top u v (p ∷ ps) args written
              (omega (arith, n, e)) strings;
        kept =
            Kept-trans sp top w u v
              (Kept-widen (top - arg_block) top sp top w u (omega arith) (omega arith) kept)
              (Kept-widen sp stop sp top u v (omega arith) (omega (arith, n, e)) written);
      }

  StringsAt-InSpace :
      (mem : ℕ → ℕ) (ps : List Ptr) (ss : List (List ℕ)) (lo hi : ℕ)
      → space.minaddr ≤ lo
      → hi ≤ space.maxaddr
      → StringsAt mem lo hi ps ss
      → All (λ p. (space.minaddr ≤ p) × (p < space.maxaddr)) ps
  StringsAt-InSpace mem [] ss lo hi a b h = tt
  StringsAt-InSpace mem (p ∷ ps) [] lo hi a b h = elim h [ ]
  StringsAt-InSpace mem (p ∷ ps) (s ∷ ss) lo hi a b (e, at, room, h) =
      ((omega arith, omega arith), StringsAt-InSpace mem ps ss lo hi a b h)

  -- What stacksetup does once the strings are there.
  abbrev after_strings : List (List ℕ) → List Ptr → Cmd (Option Ptr)
  after_strings args ps = do
    store_word sp (length args)
    done ← pointer_loop space (top - arg_block) (sp + 8) (sp + 8) ps
    if done
        then (do
          finish_stack space info pagesize (sp + 8) (sp + 8 + 8 * length args)
          pure (some sp))
        else pure none

  pointers-IsStack :
      (args : List (List ℕ)) (w u : World) (p : Ptr) (ps : List Ptr)
      → Kept (top - arg_block) top w u
      → StringsAt u.mem (top - arg_block) top (p ∷ ps) args
      → length (p ∷ ps) ≡ length args
      → length args ≤ 471
      → 2 * arg_block ≤ top
      → space.minaddr ≤ top - arg_block
      → top ≤ space.maxaddr
      → Holds (StackResult args w) (after_strings args (p ∷ ps) u)
  unfolding InSpace
  pointers-IsStack args w u p ps kept strings e few big lo hi =
      let u2 = stored u sp (length args) in
      let inside = StringsAt-InSpace u.mem (p ∷ ps) args (top - arg_block) top lo hi strings in
      Holds-bind (λ r v. (r ≡ true) × Laid u2 (sp + 8) (p ∷ ps) v) (StackResult args w)
        (pointer_loop space (top - arg_block) (sp + 8) (sp + 8) (p ∷ ps) u2) _
        (pointer_loop-Laid space (top - arg_block) (sp + 8) u2 (sp + 8) (p ∷ ps) (omega arith) small
          inside)
        λ r u3 (yes_done, (kept3, there)). rw yes_done (
          Holds-bind (λ _ v. Laid u3 (sp + 8 + 8 * length args) (0 ∷ 0 ∷ auxv info p pagesize) v)
            (StackResult args w)
            (finish_stack space info pagesize (sp + 8) (sp + 8 + 8 * length args) u3) _
            (finish_stack-Laid u3 (sp + 8) (sp + 8 + 8 * length args) p ps there (omega (arith, e))
              inside.0)
            λ _ v end_laid. frame-IsStack args w u v p ps kept strings e few big (
              Laid-cons u sp (length args) ((p ∷ ps) ++ 0 ∷ 0 ∷ auxv info p pagesize) v
                (omega arith)
                (Laid-append u2 u3 v (sp + 8) (p ∷ ps) (0 ∷ 0 ∷ auxv info p pagesize) (kept3, there)
                  (subst (λ n. Laid u3 (sp + 8 + 8 * n) (0 ∷ 0 ∷ auxv info p pagesize) v) (sym e)
                    end_laid))))

  strings-StackResult :
      (args : List (List ℕ)) (w u : World)
      → 0 < length args
      → length args ≤ 471
      → 2 * arg_block ≤ top
      → space.minaddr ≤ top - arg_block
      → top ≤ space.maxaddr
      → (r : Option (List Ptr)) → StringsDone (top - arg_block) top w (top - arg_block) args r u
      → Holds (StackResult args w) (
          (elim r as (λ _. Cmd (Option Ptr)) [ none ↦ pure none | some ps ↦ after_strings args ps ])
            u)
  strings-StackResult args w u some_args few big lo hi none (kept, le) =
      (Kept-widen (top - arg_block) top sp top w u (omega arith) (omega arith) kept, omega arith)
  strings-StackResult args w u some_args few big lo hi (some []) (kept, strings, e) =
      absurd (omega arith)
  strings-StackResult args w u some_args few big lo hi (some (p ∷ ps)) (kept, strings, e) =
      pointers-IsStack args w u p ps kept strings e few big lo hi

  -- With 1 to 471 arguments and a stack in the guest's space, stacksetup writes to the last two blocks
  -- alone. It leaves the frame that a program expects, or fails because the strings take a block or more.
  pub stacksetup-StackResult :
      (args : List (List ℕ)) (w : World)
      → 0 < length args
      → length args ≤ 471
      → 2 * arg_block ≤ top
      → space.minaddr ≤ top - arg_block
      → top ≤ space.maxaddr
      → Holds (StackResult args w) (stacksetup space pagesize args info w)
  unfolding stacksetup
  stacksetup-StackResult args w some_args few big lo hi =
      Holds-bind (StringsDone (top - arg_block) top w (top - arg_block) args) (StackResult args w)
        (string_loop top 0 (top - arg_block) args w) _
        (string_loop-StringsDone (top - arg_block) top 0 (top - arg_block) args w (omega arith)
          (omega arith) (omega arith))
        λ r u h. strings-StackResult args w u some_args few big lo hi r h
