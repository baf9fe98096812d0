-- ===== src/Catalog.antt =====
-- `CatalogClient` of looktech_glasses_sdk/catalog.py: the media on the device, by pages of numbers
-- and a description of each.
pub mod Pages
pub mod Ends
mod Tests
use edu_glasses_host.Base.{
  ℕ, zero, suc, ◌+◌, ◌*◌, Bool, true, false, not, ◌&&◌, ◌||◌, Option, none, some, List, [], ◌∷◌,
  ◌++◌, ltb, leb, ◌==◌, if◌then◌else◌, length, take, drop, Result, ok, err, bit_and,
}
use edu_glasses_host.Base.Bits.{shl}
use edu_glasses_host.Base.Bytes.{Bytes, byte_at, le_at, le, to_le, slice}
use edu_glasses_host.Payload.Codes.Commands.{CommandId, command_id_code}
use edu_glasses_host.Client.{timed_out}
use edu_glasses_host.Session.{SessionError, client_failed, refused, require, request, is_connected}
use edu_glasses_host.Session.State.{
  Session, Op, return, raise, ◌>>=◌, ◌>>◌, get, raise_if, given, and_then, map_err,
}
use edu_glasses_host.Media.{Text, MediaFile, MediaFileError, UrlTools, integer, media_file}

pub record MediaCapabilities : Type 0 where
  pub schema_version : ℕ
  pub catalog_id : ℕ
  pub features : ℕ

-- `kind` is 1 for a photo and 2 for a video. There are no companions in a description.
pub record MediaItem : Type 0 where
  pub catalog_id : ℕ
  pub media_id : ℕ
  pub revision : ℕ
  pub kind : ℕ
  pub file : MediaFile
  pub companions_known : Bool

-- `query_failed` is the `MediaError` of one item, with the data of the response. The others are
-- `MediaSessionError`, and what the session raises. `out_of_fuel` is the model's own.
pub data CatalogError : Type 0 where
  query_failed : Bytes → CatalogError
  unavailable : ℕ → CatalogError
  query_timed_out owner_lost bad_capabilities unsupported_isp catalog_changed truncated :
      CatalogError
  bad_descriptor bad_text bad_page bad_id cursor_stuck : CatalogError
  bad_file : MediaFileError → CatalogError
  from_session : SessionError → CatalogError
  out_of_fuel : CatalogError

-- The public errors that invalidate a catalog or its owner.
abbrev pub is_fatal : ℕ → Bool
is_fatal code = code == 0x60 || (code == 0x68 || (code == 0x6e || (code == 0x73 || code == 0x74)))

abbrev pub status_failure : Bytes → CatalogError
status_failure [] = query_failed []
status_failure (code ∷ rest) =
    if is_fatal code then unavailable code else query_failed (code ∷ rest)

-- The `except` clauses of `_request`.
abbrev pub failure_of : SessionError → Session → CatalogError
failure_of (refused command status content) s = status_failure content
failure_of (client_failed timed_out) s = query_timed_out
failure_of e s = if is_connected s then from_session e else owner_lost

abbrev pub explained :
    {A : Type 0} → Result SessionError A × Session → Result CatalogError A × Session
explained (ok a, s) = (ok a, s)
explained (err e, s) = (err (failure_of e s), s)

abbrev pub cap_media_catalog : ℕ
cap_media_catalog = shl 1 8

-- The session's part of `_request`.
abbrev pub queried : ℕ → Bytes → Op SessionError Bytes
queried command args = do
  require cap_media_catalog true
  response ← request command args
  return response.content

-- `_request`
unfoldable pub query : CommandId → Bytes → Op CatalogError Bytes
query command args s = explained (queried (command_id_code command) args s)

-- The test of `capabilities`.
abbrev pub is_unsupported : Bytes → Bool
is_unsupported content =
    not (byte_at content 0 == 1)
    || (le_at 8 content 1 == 0 || not (bit_and (le_at 4 content 9) 0x11 == 0x11))

abbrev pub capabilities_of : Bytes → MediaCapabilities
capabilities_of content = record {
  schema_version = byte_at content 0;
  catalog_id = le_at 8 content 1;
  features = le_at 4 content 9;
}

unfoldable pub get_capabilities : Op CatalogError MediaCapabilities
get_capabilities = do
  content ← query CommandId.media_caps []
  raise_if (not (length content == 13)) bad_capabilities
  raise_if (is_unsupported content) unsupported_isp
  return (capabilities_of content)

unfoldable pub check : ℕ → Op CatalogError (Unit {0})
check catalog_id = do
  caps ← get_capabilities
  raise_if (not (caps.catalog_id == catalog_id)) catalog_changed

abbrev pub numbered : ℕ → Op CatalogError ℕ
numbered value = given (map_err bad_file (integer value 0xffffffffffffffff 1))

-- The test of a description in `item`.
abbrev pub is_foreign : ℕ → ℕ → Bytes → Bool
is_foreign catalog_id media_id content =
    not (le_at 8 content 0 == catalog_id)
    || (not (le_at 8 content 8 == media_id)
        || (le_at 4 content 16 == 0
            || (not (byte_at content 20 == 1 || byte_at content 20 == 2)
                || not (length content == 33 + le_at 2 content 29 + le_at 2 content 31))))

abbrev pub or_bad_text : Option Text → Result CatalogError Text
or_bad_text none = err bad_text
or_bad_text (some t) = ok t

abbrev pub item_of : Bytes → MediaFile → MediaItem
item_of content file = record {
  catalog_id = le_at 8 content 0;
  media_id = le_at 8 content 8;
  revision = le_at 4 content 16;
  kind = byte_at content 20;
  file = file;
  companions_known = byte_at content 20 == 1;
}

module _ (tools : UrlTools) (utf8 : Bytes → Option Text) where
  unfoldable pub item : ℕ → ℕ → Op CatalogError MediaItem
  item catalog_id media_id = do
    numbered catalog_id
    numbered media_id
    content ← query CommandId.media_descriptor (to_le 8 catalog_id ++ to_le 8 media_id)
    raise_if (ltb (length content) 33) truncated
    raise_if (is_foreign catalog_id media_id content) bad_descriptor
    name ← given (or_bad_text (utf8 (slice content 33 (33 + le_at 2 content 29))))
    path ← given (or_bad_text (utf8 (drop (33 + le_at 2 content 29) content)))
    file ← given (map_err bad_file (media_file tools name path (le_at 8 content 21)))
    return (item_of content file)

-- An item that was deleted after its number was listed.
abbrev pub is_deleted : Bytes → Bool
is_deleted (code ∷ []) = code == 0x62 || code == 0x63
is_deleted _ = false

abbrev pub or_gone :
    Result CatalogError MediaItem × Session → Result CatalogError (Option MediaItem) × Session
or_gone (ok i, s) = (ok (some i), s)
or_gone (err (query_failed content), s) =
    (if is_deleted content then ok none else err (query_failed content), s)
or_gone (err e, s) = (err e, s)

abbrev pub has_id : ℕ → List ℕ → Bool
has_id i [] = false
has_id i (j ∷ js) = i == j || has_id i js

abbrev pub added : Option MediaItem → List MediaItem → List MediaItem
added none items = items
added (some i) items = i ∷ items

-- `struct.unpack_from('<%dQ')`
unfoldable pub read_ids : ℕ → Bytes → List ℕ
read_ids zero input = []
read_ids (suc n) input = le 8 input ∷ read_ids n (drop 8 input)

abbrev pub is_bad_page : ℕ → Bytes → Bool
is_bad_page catalog_id content =
    not (le_at 8 content 0 == catalog_id)
    || (ltb 1 (byte_at content 24)
        || (ltb 16 (byte_at content 25) || not (length content == 26 + byte_at content 25 * 8)))

module _ (tools : UrlTools) (utf8 : Bytes → Option Text) where
  -- The loop over the numbers of a page, and what comes behind it.
  unfoldable pub read_items :
      ℕ
      → List ℕ
      → List ℕ
      → (List ℕ → Op CatalogError (List MediaItem))
      → Op CatalogError (List MediaItem)
  read_items catalog_id [] seen rest = rest seen
  read_items catalog_id (i ∷ is) seen rest = do
    raise_if (i == 0 || has_id i seen) bad_id
    found ← (λ s. or_gone (item tools utf8 catalog_id i s))
    items ← read_items catalog_id is (i ∷ seen) rest
    return (added found items)

  -- The loop over the pages. The cursor grows and is a 64-bit number, so as much fuel as there are
  -- larger ones is enough.
  unfoldable pub read_pages : ℕ → ℕ → ℕ → List ℕ → Op CatalogError (List MediaItem)
  read_pages zero catalog_id cursor seen = raise out_of_fuel
  read_pages (suc fuel) catalog_id cursor seen = do
    content ← query CommandId.media_ids (to_le 8 catalog_id ++ to_le 8 cursor)
    raise_if (ltb (length content) 26) truncated
    raise_if (is_bad_page catalog_id content) bad_page
    read_items catalog_id (read_ids (byte_at content 25) (drop 26 content)) seen (λ known.
        if byte_at content 24 == 0
        then return []
        else raise_if (byte_at content 25 == 0 || leb (le_at 8 content 16) cursor) cursor_stuck
          >> read_pages fuel catalog_id (le_at 8 content 16) known)

  -- `list`
  unfoldable pub list_items : ℕ → ℕ → Op CatalogError (List MediaItem)
  list_items fuel catalog_id = do
    check catalog_id
    items ← read_pages fuel catalog_id 0 []
    check catalog_id
    return items
