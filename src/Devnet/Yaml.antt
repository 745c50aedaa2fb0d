-- ===== src/Devnet/Yaml.antt =====
-- Values of a YAML file, and how tempo/devnet/config.py takes a mapping or a list of arguments.
use tempo_py.Prelude.{
  ℕ, ◌==◌, ◌≡◌, refl, Bool, if◌then◌else◌, List, [], ◌∷◌, Option, none, some, Result, ok, err,
  type_error, ◌>>=◌,
}
use tempo_py.Python.Bytes.{Str, eqb}

mutual
  pub data Yaml : Type 0 where
    null : Yaml
    bool : Bool → Yaml
    number : ℕ → Yaml
    text : Str → Yaml
    items : Yamls → Yaml
    mapping : Entries → Yaml

  pub data Yamls : Type 0 where
    nil : Yamls
    cons : Yaml → Yamls → Yamls

  pub data Entries : Type 0 where
    empty : Entries
    entry : Str → Yaml → Entries → Entries

-- `_flags`, where the key's value is none if it is missing.
unfoldable pub strings : Yamls → Result (List Str)
strings nil = ok []
strings (cons (text s) rest) = strings rest >>= λ ss. ok (s ∷ ss)
strings (cons _ rest) = err type_error

unfoldable pub flags : Option Yaml → Result (List Str)
unfolding strings
flags none = ok []
flags (some (items xs)) = strings xs
flags (some null) = ok []
flags (some (bool b)) = if b then err type_error else ok []
flags (some (number n)) = if n == 0 then ok [] else err type_error
flags (some (text s)) = if eqb s [] then ok [] else err type_error
flags (some (mapping empty)) = ok []
flags (some (mapping (entry k v rest))) = err type_error

-- `data.get(key) or {}`, which is to be a mapping.
unfoldable pub mapping_of : Option Yaml → Result Entries
mapping_of none = ok empty
mapping_of (some (mapping es)) = ok es
mapping_of (some null) = ok empty
mapping_of (some (bool b)) = if b then err type_error else ok empty
mapping_of (some (number n)) = if n == 0 then ok empty else err type_error
mapping_of (some (text s)) = if eqb s [] then ok empty else err type_error
mapping_of (some (items nil)) = ok empty
mapping_of (some (items (cons x xs))) = err type_error

abbrev pub texts : List Str → Yamls
texts [] = nil
texts (s ∷ ss) = cons (text s) (texts ss)

pub strings-texts : (ss : List Str) → strings (texts ss) ≡ ok ss
unfolding strings
strings-texts [] = refl
strings-texts (s ∷ ss) = rw (strings-texts ss)
