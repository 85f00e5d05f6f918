-- ===== src/Printf/Bounds/Fields.antt =====
-- lib/vsprintf.c: number, string and pointer write into the buffer only.
use Prim.Native.Nat.{bit_and, bit_or}
use sandix.Common.{ℕ, zero, suc, ◌+◌, Bool, not, ◌&&◌, ◌||◌, List, [], ◌∷◌, if◌then◌else◌, ◌==◌}
use sandix.Resource.{Resource}
use sandix.Printf.{PrintfSpec, Output, put}
use sandix.Printf.Number.{Layout, layout, put_reversed, put_prefix, number}
use sandix.Printf.Text.{
  Source, constant, null_text, copy_source, string, resource_string, put_bytes, hex_string,
  address_val, pointer,
}
use sandix.Printf.Bounds.{Wrote, Wrote-refl, Wrote-trans, Wrote-if, put-Wrote, pad-Wrote}

put_reversed-Wrote : (end : ℕ) (cs : List ℕ) (o : Output) → Wrote end o (put_reversed end cs o)
unfolding put_reversed
put_reversed-Wrote end [] o = Wrote-refl end o
put_reversed-Wrote end (c ∷ cs) o =
    Wrote-trans (put_reversed-Wrote end cs o) (put-Wrote end c (put_reversed end cs o))

-- A step that is taken under a test.
pub Wrote-when :
    {end : ℕ} {o u w : Output} (b : Bool)
    → Wrote end o u
    → Wrote end u w
    → Wrote end o (if b then w else u)
Wrote-when b h k = Wrote-if b (Wrote-trans h k) h

put_prefix-Wrote : (end : ℕ) (l : Layout) (o : Output) → Wrote end o (put_prefix end l o)
unfolding put_prefix
put_prefix-Wrote end l o =
    let signed : Wrote end o (if l.sign_char == 0 then o else put end l.sign_char o) =
      Wrote-if (l.sign_char == 0) (Wrote-refl end o) (put-Wrote end l.sign_char o) in
    Wrote-if l.need_pfx
      (Wrote-when (l.base == 16)
        (Wrote-when (l.base == 16 || not l.is_zero) signed (put-Wrote end 48 _))
        (put-Wrote end (bit_or 88 (bit_and l.flags 32)) _))
      signed

pub number-Wrote :
    (end num : ℕ) (spec : PrintfSpec) (o : Output) → Wrote end o (number end num spec o)
unfolding number
number-Wrote end num spec o =
    Wrote-trans
      (Wrote-trans
        (Wrote-trans
          (Wrote-when _
            (Wrote-trans (Wrote-if _ (pad-Wrote end 32 _ o) (Wrote-refl end o))
              (put_prefix-Wrote end (layout num spec) _))
            (pad-Wrote end _ _ _))
          (pad-Wrote end 48 _ _))
        (put_reversed-Wrote end (layout num spec).digits _))
      (pad-Wrote end 32 _ _)

copy_source-Wrote :
    (end : ℕ) (s : Source) (i n : ℕ) (o : Output) → Wrote end o (copy_source end s i n o)
unfolding copy_source
copy_source-Wrote end s i zero o = Wrote-refl end o
copy_source-Wrote end s i (suc n) o =
    Wrote-trans (put-Wrote end _ o) (copy_source-Wrote end s (i + 1) n _)

pub string-Wrote :
    (end : ℕ) (s : Source) (spec : PrintfSpec) (o : Output) → Wrote end o (string end s spec o)
unfolding string
string-Wrote end s spec o =
    Wrote-trans
      (Wrote-trans (Wrote-if _ (pad-Wrote end 32 _ o) (Wrote-refl end o))
        (copy_source-Wrote end s 0 _ _))
      (pad-Wrote end 32 _ _)

put_bytes-Wrote :
    (end addr separator i n : ℕ) (o : Output) → Wrote end o (put_bytes end addr separator i n o)
unfolding put_bytes
put_bytes-Wrote end addr separator i zero o = Wrote-refl end o
put_bytes-Wrote end addr separator i (suc n) o =
    let hi = put-Wrote end _ o in
    let lo = Wrote-trans hi (put-Wrote end _ _) in
    Wrote-trans
      (Wrote-if (separator == 0 || n == 0) lo (Wrote-trans lo (put-Wrote end separator _)))
      (put_bytes-Wrote end addr separator (i + 1) n _)

hex_string-Wrote :
    (end addr : ℕ) (spec : PrintfSpec) (c : ℕ) (o : Output)
    → Wrote end o (hex_string end addr spec c o)
unfolding hex_string
hex_string-Wrote end addr spec c o =
    Wrote-if _ (Wrote-refl end o) (put_bytes-Wrote end addr _ 0 _ o)

address_val-Wrote :
    (end addr : ℕ) (spec : PrintfSpec) (o : Output) → Wrote end o (address_val end addr spec o)
unfolding address_val
address_val-Wrote end addr spec o = number-Wrote end _ _ o

resource_string-Wrote :
    (end : ℕ) (decode : Bool) (res : Resource) (spec : PrintfSpec) (o : Output)
    → Wrote end o (resource_string end decode res spec o)
unfolding resource_string
resource_string-Wrote end decode res spec o = string-Wrote end _ spec o

pub pointer-Wrote :
    (resource_at : ℕ → Resource) (fmt next end ptr : ℕ) (spec : PrintfSpec) (o : Output)
    → Wrote end o (pointer resource_at fmt next end ptr spec o)
unfolding pointer
pointer-Wrote resource_at fmt next end ptr spec o =
    Wrote-if (ptr == 0 && not (fmt == 75)) (string-Wrote end (constant null_text) _ o) (
      Wrote-if (fmt == 82 || fmt == 114)
        (resource_string-Wrote end (fmt == 82) (resource_at ptr) spec o)
        (Wrote-if (fmt == 104) (hex_string-Wrote end ptr spec next o)
          (Wrote-if (fmt == 97) (address_val-Wrote end ptr spec o) (number-Wrote end ptr _ o))))
