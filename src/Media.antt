-- ===== src/Media.antt =====
-- `_integer` and `_media_file` of looktech_glasses_sdk/media.py: what a file on the device may be.
-- A text is the list of its characters. `urlsplit`, `unquote` and `PurePosixPath` are parameters.
use edu_glasses_host.Base.{
  ℕ, Bool, true, false, not, ◌&&◌, ◌||◌, List, [], ◌∷◌, ltb, leb, ◌==◌, if◌then◌else◌, length,
  Result, ok, err, ◌>>=◌, ◌>>◌, raise_if, get_or,
}

abbrev pub Text : Type 0
Text = List ℕ

pub record MediaFile : Type 0 where
  pub name : Text
  pub path : Text
  pub size : ℕ

pub data MediaFileError : Type 0 where
  bad_integer unsafe_name unsafe_path outside_root not_a_file : MediaFileError

pub record UrlParts : Type 0 where
  pub scheme : Text
  pub netloc : Text
  pub query : Text
  pub fragment : Text

pub record UrlTools : Type 0 where
  pub urlsplit : Text → UrlParts
  pub unquote : Text → Text
  pub parts : Text → List Text

-- `_integer`, of a number.
unfoldable pub integer : ℕ → ℕ → ℕ → Result MediaFileError ℕ
integer value maximum minimum =
    if leb minimum value && leb value maximum then ok value else err bad_integer

abbrev pub same_text : Text → Text → Bool
same_text [] [] = true
same_text [] (d ∷ ds) = false
same_text (c ∷ cs) [] = false
same_text (c ∷ cs) (d ∷ ds) = c == d && same_text cs ds

abbrev pub is_empty : Text → Bool
is_empty [] = true
is_empty (c ∷ cs) = false

abbrev pub has_char : ℕ → Text → Bool
has_char c [] = false
has_char c (d ∷ ds) = c == d || has_char c ds

-- `any(c in text for c in chars)`
abbrev pub has_any : Text → Text → Bool
has_any [] text = false
has_any (c ∷ cs) text = has_char c text || has_any cs text

abbrev pub starts_with : Text → Text → Bool
starts_with [] text = true
starts_with (c ∷ cs) [] = false
starts_with (c ∷ cs) (d ∷ ds) = c == d && starts_with cs ds

abbrev pub among : Text → List Text → Bool
among text [] = false
among text (t ∷ ts) = same_text text t || among text ts

-- '..'
abbrev pub parent_dir : Text
parent_dir = 46 ∷ 46 ∷ []

-- '/\\:\x00'
abbrev pub name_chars : Text
name_chars = 47 ∷ 92 ∷ 58 ∷ 0 ∷ []

-- '\r\n\x00\\'
abbrev pub path_chars : Text
path_chars = 13 ∷ 10 ∷ 0 ∷ 92 ∷ []

-- '/customer/bt_res/'
abbrev pub media_root : Text
media_root =
    47 ∷ 99 ∷ 117 ∷ 115 ∷ 116 ∷ 111 ∷ 109 ∷ 101 ∷ 114 ∷ 47 ∷ 98 ∷ 116 ∷ 95 ∷ 114 ∷ 101 ∷ 115 ∷ 47
    ∷ []

-- 'image', 'video', 'audio', 'gsensor'
abbrev pub media_folders : List Text
media_folders =
    (105 ∷ 109 ∷ 97 ∷ 103 ∷ 101 ∷ [])
    ∷ (118 ∷ 105 ∷ 100 ∷ 101 ∷ 111 ∷ [])
    ∷ (97 ∷ 117 ∷ 100 ∷ 105 ∷ 111 ∷ [])
    ∷ (103 ∷ 115 ∷ 101 ∷ 110 ∷ 115 ∷ 111 ∷ 114 ∷ [])
    ∷ []

abbrev pub is_unsafe_name : Text → Bool
is_unsafe_name name =
    is_empty name
    || (same_text name (46 ∷ []) || (same_text name parent_dir || has_any name_chars name))

abbrev pub is_url : UrlParts → Bool
is_url u =
    not (is_empty u.scheme)
    || (not (is_empty u.netloc) || (not (is_empty u.query) || not (is_empty u.fragment)))

module _ (tools : UrlTools) where
  abbrev pub is_outside : Text → Bool
  is_outside path =
      is_url (tools.urlsplit path)
      || (not (starts_with media_root (tools.unquote path))
          || (among parent_dir (tools.parts (tools.unquote path))
              || has_any path_chars (tools.unquote path)))

  abbrev pub is_direct : Text → Bool
  is_direct path =
      let parts = tools.parts (tools.unquote path) in
      length parts == 5 && among (get_or parts 3 []) media_folders

  -- `_media_file`, of an entry that has all its fields.
  unfoldable pub media_file : Text → Text → ℕ → Result MediaFileError MediaFile
  media_file name path size = do
    raise_if (is_unsafe_name name) unsafe_name
    raise_if (ltb 1024 (length path) || has_any path_chars path) unsafe_path
    raise_if (is_outside path) outside_root
    raise_if (not (is_direct path)) not_a_file
    checked ← integer size 0xffffffffffffffff 0
    ok (record { name = name; path = path; size = checked })
