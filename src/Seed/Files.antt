-- ===== src/Seed/Files.antt =====
-- The file system as src/wallet_loader.rs uses it: a path is the list of its names, the last first, and the
-- empty path is the root, which is a directory. Reading and writing fail only because of what is
-- at the path.
pub mod Store
use wallet_daemon.Base.{
  ℕ, ◌≡◌, refl, ◌↔◌, Bool, true, false, ◌&&◌, ◌||◌, not, Option, none, some, List, [], ◌∷◌, Text,
  text, Eq, text_beq, text_beq_iff, arith, lookup, insert, Result, ok, err, is_some, if◌then◌else◌,
  retain,
}

abbrev pub PathBuf : Type 0
PathBuf = List Text

abbrev path_beq : PathBuf → PathBuf → Bool
path_beq [] [] = true
path_beq [] (_ ∷ _) = false
path_beq (_ ∷ _) [] = false
path_beq (a ∷ p) (b ∷ q) = text_beq a b && path_beq p q

pub path_beq_iff : (p q : PathBuf) → (path_beq p q ≡ true) ↔ (p ≡ q)
path_beq_iff [] [] = ground arith
path_beq_iff [] (b ∷ q) = ground arith
path_beq_iff (a ∷ p) [] = ground arith
path_beq_iff (a ∷ p) (b ∷ q) = ground (arith, text_beq_iff a b, path_beq_iff p q)

instance abbrev pub path_key : Eq PathBuf
path_key = record { beq = path_beq; beq_iff = path_beq_iff }

pub data Entry : Type 0 where
  file : Text → Entry
  directory : Entry

abbrev pub Files : Type 0
Files = List (PathBuf × Entry)

abbrev pub is_directory : Option Entry → Bool
is_directory (some directory) = true
is_directory _ = false

abbrev pub is_regular : Option Entry → Bool
is_regular (some (file content)) = true
is_regular _ = false

abbrev pub is_dir : PathBuf → Files → Bool
is_dir [] files = true
is_dir (name ∷ parent) files = is_directory (lookup (name ∷ parent) files)

abbrev pub is_file : PathBuf → Files → Bool
is_file [] files = false
is_file (name ∷ parent) files = is_regular (lookup (name ∷ parent) files)

abbrev pub exists : PathBuf → Files → Bool
exists path files = is_dir path files || is_file path files

-- An operation that changes the files, or panics.
abbrev pub Io : Type 0 → Type 0
Io A = Files → Result Text (Files × A)

abbrev pub continue :
    {A B : Type 0} → Result Text (Files × A) → (A → Io B) → Result Text (Files × B)
continue (ok (files, a)) f = f a files
continue (err e) f = err e

infixl 5 ◌>>=◌
abbrev pub ◌>>=◌ : {A B : Type 0} → Io A → (A → Io B) → Io B
◌>>=◌ m f files = continue (m files) f

abbrev pub return : {A : Type 0} → A → Io A
return a files = ok (files, a)

abbrev pub lift : {A : Type 0} → Result Text A → Io A
lift (ok a) files = ok (files, a)
lift (err e) files = err e

-- A chain succeeds when its first step does, and then the rest.
pub continue_ok :
    {A B : Type 0} (r : Result Text (Files × A)) (f : A → Io B) (out : Files × B)
    → continue r f ≡ ok out
    → (files : Files) × (a : A) × (r ≡ ok (files, a)) × (f a files ≡ ok out)
continue_ok (ok (files, a)) f out e = (files, a, refl, e)
continue_ok (err x) f out e = absurd (ground (arith, e))

abbrev pub content_of : Option Entry → Option Text
content_of (some (file content)) = some content
content_of _ = none

abbrev pub expected : Option Text → Text → Result Text Text
expected (some content) message = ok content
expected none message = err message

-- `fs::read_to_string(path).expect(message)`
abbrev pub read_to_string : PathBuf → Text → Io Text
read_to_string path message files =
    lift (expected (if is_file path files then content_of (lookup path files) else none) message)
      files

-- `fs::write(path, content).expect(message)`: the parent has to be a directory.
unfoldable pub write : PathBuf → Text → Text → Io (Unit {0})
write [] content message files = err message
write (name ∷ parent) content message files =
    if is_dir parent files && not (is_dir (name ∷ parent) files)
    then ok (insert (name ∷ parent) (file content) files, tt)
    else err message

abbrev pub make_dir : PathBuf → Text → Files → Result Text (Files × Unit {0})
make_dir path message files =
    if is_file path files then err message else ok (insert path directory files, tt)

-- `fs::create_dir_all(path).expect(message)`
unfoldable pub create_dir_all : PathBuf → Text → Io (Unit {0})
create_dir_all [] message files = ok (files, tt)
create_dir_all (name ∷ parent) message files =
    let created = create_dir_all parent message files in
    if is_dir (name ∷ parent) files
    then ok (files, tt)
    else continue created (λ _. make_dir (name ∷ parent) message)

-- `fs::remove_file(path).expect(message)`
unfoldable pub remove_file : PathBuf → Text → Io (Unit {0})
remove_file path message files =
    if is_file path files
    then ok (retain (λ p. not (path_key.beq p path)) files, tt)
    else err message

abbrev entry_name : PathBuf → PathBuf → List Text → List Text
entry_name dir [] names = names
entry_name dir (name ∷ parent) names = if path_key.beq parent dir then name ∷ names else names

-- The names of a directory's entries, in the order of the list.
unfoldable pub read_dir : PathBuf → Files → List Text
read_dir dir [] = []
read_dir dir ((path, entry) ∷ files) = entry_name dir path (read_dir dir files)
