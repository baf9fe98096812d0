-- ===== src/Catalog/Pages.antt =====
-- What `list` returns.
use edu_glasses_host.Base.{
  ℕ, zero, suc, ◌+◌, ◌≡◌, ◌≢◌, refl, ap, sym, subst, ◌∙◌, false, not, ◌||◌, Option, none, some,
  List, [], ◌∷◌, ◌++◌, ltb, leb, ◌==◌, length, drop, Result, ok, err, ◌⊎◌, arith,
}
use edu_glasses_host.Base.Bytes.{Bytes, byte_at, le_at, to_le, slice}
use edu_glasses_host.Payload.Codes.Commands.{CommandId}
use edu_glasses_host.Media.{Text, UrlTools, MediaFile, MediaFileError, media_file, integer}
use edu_glasses_host.Session.State.{Session, Op, given, map_err}
use edu_glasses_host.Session.Yields.{
  By, Yields, Yields-bind, Yields-return, Yields-if, Yields-raise_if, Yields-test,
}
use edu_glasses_host.Catalog.{
  MediaItem, CatalogError, truncated, bad_descriptor, bad_page, bad_id, cursor_stuck,
  bad_capabilities, unsupported_isp, catalog_changed, bad_file, get_capabilities, check, query,
  is_foreign, or_bad_text, item_of, item, or_gone, has_id, added, is_bad_page, read_items,
  read_pages, list_items, is_unsupported, capabilities_of,
}

-- Any error may be raised.
abbrev pub AnyError : CatalogError → Type 0
AnyError e = Unit

-- The description is of the item asked for, a photo or a video with a revision.
abbrev pub IsItem : ℕ → ℕ → MediaItem → Type 0
IsItem catalog_id media_id i =
    ((i.catalog_id ≡ catalog_id) × (i.media_id ≡ media_id))
    × ((i.revision ≢ 0) × ((i.kind ≡ 1) ⊎ (i.kind ≡ 2)))

-- The items are new and different from each other.
abbrev pub IsListing : ℕ → List ℕ → List MediaItem → Type 0
IsListing catalog_id seen [] = Unit
IsListing catalog_id seen (i ∷ items) =
    ((IsItem catalog_id i.media_id i × (i.media_id ≢ 0)) × (has_id i.media_id seen ≡ false))
    × IsListing catalog_id (i.media_id ∷ seen) items

any_text : (o : Option Text) → Yields (given (or_bad_text o)) (λ _. Unit {0}) AnyError
any_text none = record { yields = λ s. tt }
any_text (some t) = record { yields = λ s. tt }

any_file :
    {A : Type 0} (r : Result MediaFileError A)
    → Yields (given (map_err bad_file r)) (λ _. Unit {0}) AnyError
any_file (ok a) = record { yields = λ s. tt }
any_file (err e) = record { yields = λ s. tt }

-- Fewer numbers are seen.
abbrev Sub : List ℕ → List ℕ → Type 0
Sub seen known = (j : ℕ) → has_id j known ≡ false → has_id j seen ≡ false

Sub-cons : (i : ℕ) (seen known : List ℕ) → Sub seen known → Sub (i ∷ seen) (i ∷ known)
Sub-cons i seen known h j e =
    let behind : has_id j known ≡ false = ground (arith, e) in ground (arith, e, h j behind)

IsListing-weaken :
    (catalog_id : ℕ) (seen known : List ℕ) (items : List MediaItem)
    → Sub seen known
    → IsListing catalog_id known items
    → IsListing catalog_id seen items
IsListing-weaken catalog_id seen known [] h l = tt
IsListing-weaken catalog_id seen known (i ∷ items) h l = (
  (l.0.0, h i.media_id l.0.1),
  IsListing-weaken catalog_id (i.media_id ∷ seen) (i.media_id ∷ known) items
      (Sub-cons i.media_id seen known h) l.1,
)

-- Whatever the device answers.
query-AnyError :
    (command : CommandId) (args : Bytes) → Yields (query command args) (λ _. Unit {0}) AnyError
query-AnyError command args = record { yields = λ s. go (query command args s).0 }
  where
    go : (r : Result CatalogError Bytes) → By (λ _. Unit {0}) AnyError r
    go (ok a) = tt
    go (err e) = tt

module _ (tools : UrlTools) (utf8 : Bytes → Option Text) where
  item-IsItem :
      (catalog_id media_id : ℕ)
      → Yields (item tools utf8 catalog_id media_id) (IsItem catalog_id media_id) AnyError
  unfolding item
  item-IsItem catalog_id media_id =
      Yields-bind (any_file (integer catalog_id 0xffffffffffffffff 1)) λ a e.
        Yields-bind (any_file (integer media_id 0xffffffffffffffff 1)) λ b f.
          Yields-bind
            (query-AnyError CommandId.media_descriptor (to_le 8 catalog_id ++ to_le 8 media_id))
            λ content bytes.
              Yields-bind (Yields-raise_if (ltb (length content) 33) truncated tt) λ u g.
                Yields-bind
                  (Yields-raise_if (is_foreign catalog_id media_id content) bad_descriptor tt)
                  λ v own.
                    Yields-bind (any_text (utf8 (slice content 33 (33 + le_at 2 content 29))))
                      λ name h.
                        Yields-bind (any_text (utf8 (drop (33 + le_at 2 content 29) content)))
                          λ path k.
                            Yields-bind (any_file (media_file tools name path (le_at 8 content 21)))
                              λ file l.
                                Yields-return (item_of content file) (described content file own)
    where
      described :
          (content : Bytes) (file : MediaFile)
          → is_foreign catalog_id media_id content ≡ false
          → IsItem catalog_id media_id (item_of content file)
      described content file own = ground (arith, own)

  abbrev IsFound : ℕ → ℕ → Option MediaItem → Type 0
  IsFound catalog_id media_id none = Unit
  IsFound catalog_id media_id (some i) = IsItem catalog_id media_id i

  or_gone-IsFound :
      (catalog_id media_id : ℕ)
      → Yields
          (λ s. or_gone (item tools utf8 catalog_id media_id s))
          (IsFound catalog_id media_id)
          AnyError
  or_gone-IsFound catalog_id media_id = record {
    yields = λ s.
        go (item tools utf8 catalog_id media_id s) ((item-IsItem catalog_id media_id).yields s);
  }
    where
      go :
          (r : Result CatalogError MediaItem × Session)
          → By (IsItem catalog_id media_id) AnyError r.0
          → By (IsFound catalog_id media_id) AnyError (or_gone r).0
      go (ok i, s) h = h
      go (err e, s) h = ground (arith, h)

  added-IsListing :
      (catalog_id i : ℕ) (seen : List ℕ) (found : Option MediaItem) (items : List MediaItem)
      → (i == 0 || has_id i seen) ≡ false
      → IsFound catalog_id i found
      → IsListing catalog_id (i ∷ seen) items
      → IsListing catalog_id seen (added found items)
  added-IsListing catalog_id i seen none items new h l =
      IsListing-weaken catalog_id seen (i ∷ seen) items (λ j e. ground (arith, e)) l
  added-IsListing catalog_id i seen (some x) items new h l =
      let same : x.media_id ≡ i = h.0.1 in
      let nonzero : x.media_id ≢ 0 = λ e. absurd (ground (arith, new, same, e)) in
      let unseen : has_id i seen ≡ false = ground (arith, new) in
      (
        ((((h.0.0, refl), h.1), nonzero), ap (λ (k : ℕ). has_id k seen) same ∙ unseen),
        subst (λ (k : ℕ). IsListing catalog_id (k ∷ seen) items) (sym same) l,
      )

  read_items-IsListing :
      (catalog_id : ℕ) (is seen : List ℕ) (rest : List ℕ → Op CatalogError (List MediaItem))
      → ((known : List ℕ) → Yields (rest known) (IsListing catalog_id known) AnyError)
      → Yields (read_items tools utf8 catalog_id is seen rest) (IsListing catalog_id seen) AnyError
  unfolding read_items
  read_items-IsListing catalog_id [] seen rest h = h seen
  read_items-IsListing catalog_id (i ∷ is) seen rest h =
      Yields-bind (Yields-raise_if (i == 0 || has_id i seen) bad_id tt) λ u new.
        Yields-bind (or_gone-IsFound catalog_id i) λ found f.
          Yields-bind (read_items-IsListing catalog_id is (i ∷ seen) rest h) λ items l.
            Yields-return (added found items)
              (added-IsListing catalog_id i seen found items new f l)

  read_pages-IsListing :
      (fuel catalog_id cursor : ℕ) (seen : List ℕ)
      → Yields
          (read_pages tools utf8 fuel catalog_id cursor seen)
          (IsListing catalog_id seen)
          AnyError
  unfolding read_pages
  read_pages-IsListing zero catalog_id cursor seen = record { yields = λ s. tt }
  read_pages-IsListing (suc fuel) catalog_id cursor seen =
      Yields-bind (query-AnyError CommandId.media_ids (to_le 8 catalog_id ++ to_le 8 cursor))
        λ content any. Yields-bind (Yields-raise_if (ltb (length content) 26) truncated tt) λ u e.
          Yields-bind (Yields-raise_if (is_bad_page catalog_id content) bad_page tt) λ v f.
            read_items-IsListing catalog_id _ seen _ λ known.
              Yields-if (byte_at content 24 == 0) (λ last. Yields-return [] tt)
                λ more.
                  Yields-bind
                    (Yields-raise_if (byte_at content 25 == 0 || leb (le_at 8 content 16) cursor)
                      cursor_stuck tt)
                    λ w g. read_pages-IsListing fuel catalog_id (le_at 8 content 16) known

  capabilities-AnyError : Yields get_capabilities (λ _. Unit {0}) AnyError
  unfolding get_capabilities
  capabilities-AnyError = Yields-bind (query-AnyError CommandId.media_caps []) λ content bytes.
      Yields-bind (Yields-raise_if (not (length content == 13)) bad_capabilities tt) λ u e.
        Yields-bind (Yields-raise_if (is_unsupported content) unsupported_isp tt)
          λ v f. Yields-return (capabilities_of content) tt

  check-AnyError : (catalog_id : ℕ) → Yields (check catalog_id) (λ _. Unit {0}) AnyError
  unfolding check
  check-AnyError catalog_id =
      Yields-bind capabilities-AnyError
        λ caps g. Yields-test (not (caps.catalog_id == catalog_id)) catalog_changed tt (λ w. tt)

  list_items-IsListing :
      (fuel catalog_id : ℕ)
      → Yields (list_items tools utf8 fuel catalog_id) (IsListing catalog_id []) AnyError
  unfolding list_items
  list_items-IsListing fuel catalog_id = Yields-bind (check-AnyError catalog_id) λ u e.
      Yields-bind (read_pages-IsListing fuel catalog_id 0 [])
        λ items l. Yields-bind (check-AnyError catalog_id) λ v f. Yields-return items l

  -- Whatever the device answers, where a listing succeeds its items are of the catalog asked for,
  -- with numbers that are not 0 and all different, a revision, and the kind photo or video.
  pub list_items-distinct :
      (fuel catalog_id : ℕ) (s : Session)
      → By (IsListing catalog_id []) AnyError (list_items tools utf8 fuel catalog_id s).0
  list_items-distinct fuel catalog_id s = (list_items-IsListing fuel catalog_id).yields s
