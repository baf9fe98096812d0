-- ===== src/Catalog/Ends.antt =====
-- A listing ends: the cursor of the next page is a larger 64-bit number.
use edu_glasses_host.Base.{
  ℕ, zero, suc, ◌+◌, ◌^◌, ◌<◌, ◌≤◌, ◌≡◌, ◌≢◌, refl, Bool, true, false, not, ◌||◌, if◌then◌else◌,
  Option, none, some, List, [], ◌∷◌, ◌++◌, ltb, leb, ◌==◌, length, drop, All-drop, Result, ok, err,
  arith,
}
use edu_glasses_host.Base.Bytes.{Bytes, IsBytes, byte_at, le_at, to_le, le-lt, slice}
use edu_glasses_host.Payload.Codes.Commands.{CommandId, command_id_code}
use edu_glasses_host.Media.{Text, UrlTools, media_file, integer}
use edu_glasses_host.Session.{SessionError}
use edu_glasses_host.Session.State.{Session, Op, ◌>>=◌, and_then, return, given, map_err, raise_if}
use edu_glasses_host.Session.Triple.{Post, Triple, Triple-bind, Triple-return}
use edu_glasses_host.Session.Clean.{CleanSession, require-Keeps, request-CleanlyAnswered}
use edu_glasses_host.Catalog.{
  MediaItem, CatalogError, truncated, bad_descriptor, bad_page, bad_id, cursor_stuck,
  bad_capabilities, unsupported_isp, catalog_changed, out_of_fuel, bad_file, get_capabilities,
  check, query, queried, explained, failure_of, status_failure, cap_media_catalog, is_foreign,
  or_bad_text, item_of, item, or_gone, has_id, added, is_bad_page, read_items, read_pages,
  list_items, is_unsupported, capabilities_of,
}

-- A method that returns or raises on a clean session leaves it clean, and does not run out of fuel.
abbrev Leaves : {A : Type 0} → (A → Type 0) → Result CatalogError A × Session → Type 0
Leaves Q (ok a, s) = Q a × CleanSession s
Leaves Q (err e, s) = (e ≢ out_of_fuel) × CleanSession s

record Calls {A : Type 0} (Q : A → Type 0) (m : Op CatalogError A) : Type 0 where
  calls : (s : Session) → CleanSession s → Leaves Q (m s)

abbrev Any : {A : Type 0} → A → Type 0
Any a = Unit

Calls-bind :
    {A B : Type 0} {Q : A → Type 0} {T : B → Type 0} {m : Op CatalogError A}
    {f : A → Op CatalogError B}
    → Calls Q m
    → ((a : A) → Q a → Calls T (f a))
    → Calls T (m >>= f)
Calls-bind {A} {B} {Q} {T} {m} {f} h k = record { calls = λ s c. go (m s) (h.calls s c) }
  where
    go : (r : Result CatalogError A × Session) → Leaves Q r → Leaves T (and_then f r)
    go (ok a, u) l = (k a l.0).calls u l.1
    go (err e, u) l = l

Calls-return : {A : Type 0} {Q : A → Type 0} (a : A) → Q a → Calls Q (return a)
Calls-return a q = record { calls = λ s c. (q, c) }

Calls-raise_if :
    (b : Bool) (e : CatalogError) → e ≢ out_of_fuel → Calls (λ _. b ≡ false) (raise_if b e)
Calls-raise_if true e h = record { calls = λ s c. (h, c) }
Calls-raise_if false e h = record { calls = λ s c. (refl, c) }

Calls-given :
    {A E : Type 0} (f : E → CatalogError) (r : Result E A)
    → ((e : E) → f e ≢ out_of_fuel)
    → Calls Any (given (map_err f r))
Calls-given f (ok a) h = record { calls = λ s c. (tt, c) }
Calls-given f (err e) h = record { calls = λ s c. (h e, c) }

Calls-text : (o : Option Text) → Calls Any (given (or_bad_text o))
Calls-text none = record { calls = λ s c. ((λ e. cc e), c) }
Calls-text (some t) = record { calls = λ s c. (tt, c) }

Calls-if :
    {A : Type 0} {Q : A → Type 0} (b : Bool) {m n : Op CatalogError A}
    → Calls Q m
    → (b ≡ false → Calls Q n)
    → Calls Q (if b then m else n)
Calls-if true h k = h
Calls-if false h k = k refl

status_failure-ne : (content : Bytes) → status_failure content ≢ out_of_fuel
status_failure-ne [] e = absurd (cc e)
status_failure-ne (code ∷ rest) e = absurd (ground (arith, e))

failure_of-ne : (e : SessionError) (s : Session) → failure_of e s ≢ out_of_fuel
failure_of-ne e s h = ground (arith, h)

queried-Clean :
    (command : ℕ) (args : Bytes)
    → Triple CleanSession
        (queried command args)
        (λ content s. IsBytes content × CleanSession s)
        CleanSession
queried-Clean command args =
    Triple-bind (require-Keeps cap_media_catalog true) λ u.
      Triple-bind (request-CleanlyAnswered command args) λ r. Triple-return r.content (λ s h. h)

query-Calls : (command : CommandId) (args : Bytes) → Calls IsBytes (query command args)
unfolding query
query-Calls command args = record {
  calls = λ s c.
      go (queried (command_id_code command) args s)
        ((queried-Clean (command_id_code command) args).runs s c);
}
  where
    go :
        (r : Result SessionError Bytes × Session)
        → Post (λ content s. IsBytes content × CleanSession s) CleanSession r
        → Leaves IsBytes (explained r)
    go (ok content, u) h = h
    go (err e, u) h = (failure_of-ne e u, h)

item-Calls :
    (tools : UrlTools) (utf8 : Bytes → Option Text) (catalog_id media_id : ℕ)
    → Calls Any (item tools utf8 catalog_id media_id)
unfolding item
item-Calls tools utf8 catalog_id media_id =
    Calls-bind (Calls-given bad_file (integer catalog_id 0xffffffffffffffff 1) (λ e h. cc h)) λ a e.
      Calls-bind (Calls-given bad_file (integer media_id 0xffffffffffffffff 1) (λ e h. cc h)) λ b f.
        Calls-bind (query-Calls CommandId.media_descriptor (to_le 8 catalog_id ++ to_le 8 media_id))
          λ content bytes.
            Calls-bind (Calls-raise_if (ltb (length content) 33) truncated (λ h. cc h)) λ u g.
              Calls-bind
                (Calls-raise_if (is_foreign catalog_id media_id content) bad_descriptor (λ h. cc h))
                λ v own.
                  Calls-bind (Calls-text (utf8 (slice content 33 (33 + le_at 2 content 29))))
                    λ name h.
                      Calls-bind (Calls-text (utf8 (drop (33 + le_at 2 content 29) content)))
                        λ path k.
                          Calls-bind
                            (Calls-given bad_file (media_file tools name path (le_at 8 content 21))
                              (λ e h. cc h))
                            λ file l. Calls-return (item_of content file) tt

or_gone-Calls : (m : Op CatalogError MediaItem) → Calls Any m → Calls Any (λ s. or_gone (m s))
or_gone-Calls m h = record { calls = λ s c. go (m s) (h.calls s c) }
  where
    go : (r : Result CatalogError MediaItem × Session) → Leaves Any r → Leaves Any (or_gone r)
    go (ok i, s) l = l
    go (err e, s) l = ground (arith, l)

module _ (tools : UrlTools) (utf8 : Bytes → Option Text) where
  read_items-Calls :
      (catalog_id : ℕ) (is seen : List ℕ) (rest : List ℕ → Op CatalogError (List MediaItem))
      → ((known : List ℕ) → Calls Any (rest known))
      → Calls Any (read_items tools utf8 catalog_id is seen rest)
  unfolding read_items
  read_items-Calls catalog_id [] seen rest h = h seen
  read_items-Calls catalog_id (i ∷ is) seen rest h =
      Calls-bind (Calls-raise_if (i == 0 || has_id i seen) bad_id (λ e. cc e)) λ u new.
        Calls-bind (or_gone-Calls _ (item-Calls tools utf8 catalog_id i)) λ found f.
          Calls-bind (read_items-Calls catalog_id is (i ∷ seen) rest h)
            λ items l. Calls-return (added found items) tt

  -- With fuel for every larger 64-bit cursor the pages come to an end.
  read_pages-Calls :
      (fuel catalog_id cursor : ℕ) (seen : List ℕ)
      → cursor < 2 ^ 64
      → 2 ^ 64 ≤ fuel + cursor
      → Calls Any (read_pages tools utf8 fuel catalog_id cursor seen)
  unfolding read_pages
  read_pages-Calls zero catalog_id cursor seen h k = absurd (omega arith)
  read_pages-Calls (suc fuel) catalog_id cursor seen h k =
      Calls-bind (query-Calls CommandId.media_ids (to_le 8 catalog_id ++ to_le 8 cursor))
        λ content bytes.
          Calls-bind (Calls-raise_if (ltb (length content) 26) truncated (λ e. cc e)) λ u e.
            Calls-bind (Calls-raise_if (is_bad_page catalog_id content) bad_page (λ e. cc e)) λ v f.
              read_items-Calls catalog_id _ seen _ λ known.
                Calls-if (byte_at content 24 == 0) (Calls-return [] tt) λ more.
                  Calls-bind
                    (Calls-raise_if (byte_at content 25 == 0 || leb (le_at 8 content 16) cursor)
                      cursor_stuck (λ e. cc e))
                    λ w g.
                      let small : le_at 8 content 16 < 2 ^ 64 =
                        le-lt 8 (drop 16 content) (All-drop _ 16 content bytes) in
                      let larger : cursor < le_at 8 content 16 = ground (arith, g) in
                      read_pages-Calls fuel catalog_id (le_at 8 content 16) known small
                        (omega (arith, larger))

Calls-test : (b : Bool) (e : CatalogError) → e ≢ out_of_fuel → Calls Any (raise_if b e)
Calls-test true e h = record { calls = λ s c. (h, c) }
Calls-test false e h = record { calls = λ s c. (tt, c) }

capabilities-Calls : Calls Any get_capabilities
unfolding get_capabilities
capabilities-Calls = Calls-bind (query-Calls CommandId.media_caps []) λ content bytes.
    Calls-bind (Calls-raise_if (not (length content == 13)) bad_capabilities (λ e. cc e)) λ u e.
      Calls-bind (Calls-raise_if (is_unsupported content) unsupported_isp (λ e. cc e))
        λ v f. Calls-return (capabilities_of content) tt

check-Calls : (catalog_id : ℕ) → Calls Any (check catalog_id)
unfolding check
check-Calls catalog_id =
    Calls-bind capabilities-Calls
      λ caps g. Calls-test (not (caps.catalog_id == catalog_id)) catalog_changed (λ e. cc e)

module _ (tools : UrlTools) (utf8 : Bytes → Option Text) where
  list_items-Calls : (catalog_id : ℕ) → Calls Any (list_items tools utf8 (2 ^ 64) catalog_id)
  unfolding list_items
  list_items-Calls catalog_id = Calls-bind (check-Calls catalog_id) λ u e.
      Calls-bind (read_pages-Calls tools utf8 (2 ^ 64) catalog_id 0 [] (omega arith) (omega arith))
        λ items l. Calls-bind (check-Calls catalog_id) λ v f. Calls-return items tt

  -- Where the channels bring bytes and the client holds bytes, a listing comes to an end, with items
  -- or an error of the program: the fuel of 2 ^ 64 pages is never used up, whatever pages and
  -- descriptions the device sends.
  pub list_items-terminates :
      (catalog_id : ℕ) (s : Session)
      → CleanSession s
      → (list_items tools utf8 (2 ^ 64) catalog_id s).0 ≢ err out_of_fuel
  list_items-terminates catalog_id s c =
      go (list_items tools utf8 (2 ^ 64) catalog_id s) ((list_items-Calls catalog_id).calls s c)
    where
      go :
          (r : Result CatalogError (List MediaItem) × Session)
          → Leaves Any r
          → r.0 ≢ err out_of_fuel
      go (ok items, u) l e = absurd (cc e)
      go (err x, u) l e = let same : x ≡ out_of_fuel = cc e in l.0 same
