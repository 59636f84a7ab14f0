-- ===== src/Layers/Extract.antt =====
-- internal/gateway/layers.go: the archive of a layer is unpacked below a directory.
use cfunc.Base.{
  ℕ, ◌%◌, Bool, true, false, not, ◌&&◌, ◌||◌, List, [], ◌∷◌, ◌++◌, Option, none, some, Str, lit,
  has_prefix, trim_prefix, split, replace_byte, contains, ◌==◌, if◌then◌else◌, Result, ok, err,
  slash, dotdot, is_abs, clean, join, dir, map, leb, ◌+◌, str_eq,
}
use cfunc.Layers.{FileSystem, FileError, Done, parts, mkdir_all, remove_if_there, write_file}

pub data NameError : Type 0 where
  empty_name absolute_path contains_dotdot escapes_root : NameError

unfoldable pub safe_join : Str → Str → Result NameError Str
safe_join dst name =
    let target = join dst (clean name) in
    let dst_abs = clean dst in
    if name == []
    then err empty_name
    else if is_abs name || has_prefix name (slash ∷ [])
    then err absolute_path
    else if contains (split slash name) dotdot
    then err contains_dotdot
    else if not (has_prefix target (dst_abs ++ slash ∷ [])) && not (target == dst_abs)
    then err escapes_root
    else ok target

-- tar's type flags, as far as the code tells them apart.
pub data TypeFlag : Type 0 where
  type_dir type_reg type_reg_a type_symlink type_other : TypeFlag

-- A header and what can be read behind it; `is_whole` is false where reading fails after that.
pub record Entry : Type 0 where
  pub name : Str
  pub typeflag : TypeFlag
  pub mode : ℕ
  pub content : Str
  pub is_whole : Bool

pub data ExtractError : Type 0 where
  unsafe_entry : NameError → ExtractError
  file_error : FileError → ExtractError
  symlink_refused bad_gzip bad_tar read_failed : ExtractError

-- `if err != nil { return err }` behind a call on files.
abbrev pub or_fail : Done FileError → (FileSystem → Done ExtractError) → Done ExtractError
or_fail (fs, some e) next = (fs, some (file_error e))
or_fail (fs, none) next = next fs

abbrev pub then_do : Done ExtractError → (FileSystem → Done ExtractError) → Done ExtractError
then_do (fs, some e) next = (fs, some e)
then_do (fs, none) next = next fs

abbrev pub copied : Bool → FileSystem → Done ExtractError
copied true fs = (fs, none)
copied false fs = (fs, some read_failed)

abbrev pub write_regular : FileSystem → Str → Entry → Done ExtractError
write_regular fs target e = or_fail (mkdir_all fs (parts (dir target))) λ fs.
    or_fail (remove_if_there fs (parts target)) λ fs.
      or_fail (write_file fs (parts target) (e.mode % 512) e.content) λ fs. copied e.is_whole fs

abbrev pub write_at : FileSystem → Entry → Result NameError Str → TypeFlag → Done ExtractError
write_at fs e (err bad) _ = (fs, some (unsafe_entry bad))
write_at fs e (ok target) type_dir = or_fail (mkdir_all fs (parts target)) (copied true)
write_at fs e (ok target) type_reg = write_regular fs target e
write_at fs e (ok target) type_reg_a = write_regular fs target e
write_at fs e (ok target) type_symlink = (fs, some symlink_refused)
write_at fs e (ok target) type_other = (fs, none)

unfoldable pub write_entry : Str → FileSystem → Entry → Done ExtractError
write_entry dst fs e = write_at fs e (safe_join dst e.name) e.typeflag

-- The loop over the entries; `at_end` is the error of tr.Next other than io.EOF.
unfoldable pub write_entries :
    Str → FileSystem → List Entry → Option ExtractError → Done ExtractError
write_entries dst fs [] at_end = (fs, at_end)
write_entries dst fs (e ∷ es) at_end =
    then_do (write_entry dst fs e) (λ fs'. write_entries dst fs' es at_end)

-- What gzip and tar make of the bytes, and whether the bytes behind the archive can be read.
pub data Archive : Type 0 where
  no_gzip : Archive
  entries : List Entry → Option ExtractError → Bool → Archive

module _ (sha256 : Str → Str) (unpack : Str → Archive) where
  abbrev pub with_digest : Str → Bool → Done ExtractError → FileSystem × Result ExtractError Str
  with_digest raw drained (fs, some e) = (fs, err e)
  with_digest raw true (fs, none) = (fs, ok (lit "sha256:" ++ sha256 raw))
  with_digest raw false (fs, none) = (fs, err read_failed)

  abbrev pub unpacked : Str → Str → FileSystem → Archive → FileSystem × Result ExtractError Str
  unpacked raw dst fs no_gzip = (fs, err bad_gzip)
  unpacked raw dst fs (entries es at_end drained) =
      with_digest raw drained (write_entries dst fs es at_end)

  unfoldable pub extract_tar_gz : Str → Str → FileSystem → FileSystem × Result ExtractError Str
  extract_tar_gz raw dst fs = unpacked raw dst fs (unpack raw)

unfoldable pub sanitise_digest : Str → Str
sanitise_digest d = replace_byte 58 45 d

-- strings.ToLower on ASCII.
abbrev pub to_lower : Str → Str
to_lower = map (λ c. if leb 65 c && leb c 90 then c + 32 else c)

abbrev pub norm : Str → Str
norm s = to_lower (trim_prefix s (lit "sha256:"))

unfoldable pub digest_matches : Str → Str → Bool
unfolding trim_prefix
digest_matches declared got = norm declared == norm got
