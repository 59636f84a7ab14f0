-- ===== src/Layers/Trees.antt =====
-- internal/layers/store.go: the directory trees that are hashed and copied.
use cfunc.Base.{
  ℕ, zero, suc, ◌+◌, ◌-◌, ◌*◌, ◌/◌, ◌%◌, List, [], ◌∷◌, ◌++◌, Str, ltb, if◌then◌else◌, Result, ok,
  err, length, nat_eq, str_eq,
}
use cfunc.Layers.Refs.{LayerError, symlink, io_failed}

-- What filepath.Walk visits below a directory, in its order: a path relative to it, its mode bits,
-- its size, and its content where reading it succeeds.
pub data ItemKind : Type 0 where
  directory regular symbolic_link other : ItemKind

pub record Item : Type 0 where
  pub rel : Str
  pub kind : ItemKind
  pub perm : ℕ
  pub size : ℕ
  pub content : Result Str Str

-- The digits of a number in a base, at most as many as the first argument says.
abbrev pub digits_upto : ℕ → ℕ → ℕ → Str → Str
digits_upto zero base n after = after
digits_upto (suc fuel) base n after =
    let rest = digits_upto fuel base (n / base) ((48 + n % base) ∷ after) in
    if ltb n base then (48 + n % base) ∷ after else rest

abbrev pub digits : ℕ → ℕ → Str
digits base n = digits_upto (suc n) base n []

-- fmt.Fprintf(h, "%s\x00%o\x00%d\x00", ...)
unfoldable pub header_bytes : Item → Str
header_bytes i = i.rel ++ 0 ∷ (digits 8 i.perm ++ 0 ∷ (digits 10 i.size ++ 0 ∷ []))

-- The bytes that hashTree hashes, and how many of them are content.
abbrev pub grown : Str → ℕ → Result LayerError (Str × ℕ) → Result LayerError (Str × ℕ)
grown bytes n (err e) = err e
grown bytes n (ok (rest, total)) = ok (bytes ++ rest, n + total)

abbrev pub of_content :
    Item → Result Str Str → Result LayerError (Str × ℕ) → Result LayerError (Str × ℕ)
of_content i (err e) rest = err (io_failed e)
of_content i (ok content) rest = grown (header_bytes i ++ content) (length content) rest

abbrev pub hashed_item : Item → ItemKind → Result LayerError (Str × ℕ) → Result LayerError (Str × ℕ)
hashed_item i symbolic_link rest = err symlink
hashed_item i regular rest = of_content i i.content rest
hashed_item i directory rest = grown (header_bytes i) 0 rest
hashed_item i other rest = grown (header_bytes i) 0 rest

unfoldable pub hash_stream : List Item → Result LayerError (Str × ℕ)
hash_stream [] = ok ([], 0)
hash_stream (i ∷ is) = hashed_item i i.kind (hash_stream is)

-- A blob: the directories, and the files with their mode and content.
pub data Stored : Type 0 where
  folder : Str → ℕ → Stored
  content_of : Str → ℕ → Str → Stored

abbrev pub with_stored : Stored → Result LayerError (List Stored) → Result LayerError (List Stored)
with_stored x (err e) = err e
with_stored x (ok xs) = ok (x ∷ xs)

abbrev pub copied_item :
    Item
    → ItemKind
    → Result Str Str
    → Result LayerError (List Stored)
    → Result LayerError (List Stored)
copied_item i directory _ rest = with_stored (folder i.rel i.perm) rest
copied_item i symbolic_link _ rest = err symlink
copied_item i regular (ok bytes) rest = with_stored (content_of i.rel i.perm bytes) rest
copied_item i regular (err e) rest = err (io_failed e)
copied_item i other _ rest = rest

unfoldable pub copy_tree : List Item → Result LayerError (List Stored)
copy_tree [] = ok []
copy_tree (i ∷ is) = copied_item i i.kind i.content (copy_tree is)

-- An octal digit of a mode, and a mode, without the write bits.
abbrev pub no_write : ℕ → ℕ
no_write d = d - 2 * (d / 2 % 2)

abbrev pub drop_write : Stored → Stored
drop_write (folder rel perm) = folder rel perm
drop_write (content_of rel perm bytes) =
    content_of rel (64 * no_write (perm / 64) + 8 * no_write (perm / 8 % 8) + no_write (perm % 8))
      bytes
