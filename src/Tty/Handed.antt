-- ===== src/Tty/Handed.antt =====
-- drivers/tty/tty_io.c: the calls that a driver gets, and what it promises.
use mathlib.Core.List.{append_assoc, append-nil}
use sandix.Common.{ℕ, ◌≤◌, ◌<◌, ◌≡◌, sym, subst, List, [], ◌∷◌, ◌++◌, length}
use sandix.Tty.{TtyOps, tty_write_room, tty_put_char, flush_chars}

-- The calls of a driver: from one state to another it was handed a text, in pieces.
pub data Handed {D : Type 0} (ops : TtyOps D) (d : D) : List ℕ → D → Type 0 where
  idle : Handed ops d [] d
  written :
      {cs : List ℕ} {d1 : D}
      → (xs : List ℕ) → Handed ops d cs d1
      → Handed ops d (cs ++ xs) (ops.write xs d1).1
  put :
      {cs : List ℕ} {d1 : D}
      → (c : ℕ) → Handed ops d cs d1
      → Handed ops d (cs ++ c ∷ []) (tty_put_char ops c d1).1
  flushed : {cs : List ℕ} {d1 : D} → Handed ops d cs d1 → Handed ops d cs (flush_chars ops d1)

-- What a driver promises that always has room, as long as it is ready.
pub record Accepts {D : Type 0} (ops : TtyOps D) (Ready : D → Type 0) : Type 0 where
  pub taken :
      (cs : List ℕ) (d : D) → Ready d → length cs < 0x8000_0000 → (ops.write cs d).0 ≡ length cs
  pub room : (d : D) → Ready d → 8 ≤ tty_write_room ops d
  pub write_keeps : (cs : List ℕ) (d : D) → Ready d → Ready (ops.write cs d).1
  pub put_keeps : (c : ℕ) (d : D) → Ready d → Ready (tty_put_char ops c d).1
  pub flush_keeps : (d : D) → Ready d → Ready (flush_chars ops d)

along :
    {D : Type 0} {ops : TtyOps D} {d d1 : D} {cs ds : List ℕ}
    → cs ≡ ds
    → Handed ops d cs d1
    → Handed ops d ds d1
along {ops = ops} {d = d} {d1 = d1} e = subst (λ cs. Handed ops d cs d1) e

pub Handed-trans :
    {D : Type 0} {ops : TtyOps D} {d d1 d2 : D} {xs ys : List ℕ}
    → Handed ops d xs d1
    → Handed ops d1 ys d2
    → Handed ops d (xs ++ ys) d2
Handed-trans {xs = xs} h idle = along (sym (append-nil xs)) h
Handed-trans {xs = xs} h (written {cs = cs} zs k) =
    along (append_assoc xs cs zs) (written zs (Handed-trans h k))
Handed-trans {xs = xs} h (put {cs = cs} c k) =
    along (append_assoc xs cs (c ∷ [])) (put c (Handed-trans h k))
Handed-trans h (flushed k) = flushed (Handed-trans h k)

pub Handed-keeps :
    {D : Type 0} {ops : TtyOps D} {Ready : D → Type 0} {d d1 : D} {cs : List ℕ}
    → Accepts ops Ready
    → Ready d
    → Handed ops d cs d1
    → Ready d1
Handed-keeps a r idle = r
Handed-keeps a r (written xs h) = a.write_keeps xs _ (Handed-keeps a r h)
Handed-keeps a r (put c h) = a.put_keeps c _ (Handed-keeps a r h)
Handed-keeps a r (flushed h) = a.flush_keeps _ (Handed-keeps a r h)
