-- ===== src/Catalog/Tests.antt =====
-- A catalog with one photo, on a session with a device that answers the four requests.
use edu_glasses_host.Base.{true, false, ◌^◌, ◌≢◌, Option, some, err, [], ◌∷◌, arith}
use edu_glasses_host.Base.Bytes.{Bytes, IsBytes}
use edu_glasses_host.Media.{Text, UrlTools}
use edu_glasses_host.Session.State.{Session, Arrivals, new_session}
use edu_glasses_host.Session.Yields.{By}
use edu_glasses_host.Catalog.{out_of_fuel, list_items}
use edu_glasses_host.Session.Clean.{CleanSession}
use edu_glasses_host.Catalog.Ends.{list_items-terminates}
use edu_glasses_host.Catalog.Pages.{AnyError, IsListing, list_items-distinct}

-- Version 1, catalog 5, features 0x11.
abbrev caps_first : Bytes
caps_first =
    165 ∷ 90 ∷ 1 ∷ 17 ∷ 1 ∷ 15 ∷ 0 ∷ 37 ∷ 0 ∷ 1 ∷ 5 ∷ 0 ∷ 0 ∷ 0 ∷ 0 ∷ 0 ∷ 0 ∷ 0 ∷ 17 ∷ 0 ∷ 0 ∷ 0
    ∷ 77 ∷ 166 ∷ []

-- The one item 3.
abbrev ids_answer : Bytes
ids_answer =
    165 ∷ 90 ∷ 1 ∷ 17 ∷ 2 ∷ 36 ∷ 0 ∷ 39 ∷ 0 ∷ 5 ∷ 0 ∷ 0 ∷ 0 ∷ 0 ∷ 0 ∷ 0 ∷ 0 ∷ 1 ∷ 0 ∷ 0 ∷ 0 ∷ 0 ∷ 0
    ∷ 0 ∷ 0 ∷ 0 ∷ 0 ∷ 0 ∷ 0 ∷ 0 ∷ 0 ∷ 0 ∷ 0 ∷ 0 ∷ 1 ∷ 3 ∷ 0 ∷ 0 ∷ 0 ∷ 0 ∷ 0 ∷ 0 ∷ 0 ∷ 231 ∷ 15 ∷ []

-- Item 3 of catalog 5, revision 1, a photo of 9 bytes, with a name of one byte and a path of two.
abbrev item_answer : Bytes
item_answer =
    165 ∷ 90 ∷ 1 ∷ 17 ∷ 3 ∷ 38 ∷ 0 ∷ 38 ∷ 0 ∷ 5 ∷ 0 ∷ 0 ∷ 0 ∷ 0 ∷ 0 ∷ 0 ∷ 0 ∷ 3 ∷ 0 ∷ 0 ∷ 0 ∷ 0 ∷ 0
    ∷ 0 ∷ 0 ∷ 1 ∷ 0 ∷ 0 ∷ 0 ∷ 1 ∷ 9 ∷ 0 ∷ 0 ∷ 0 ∷ 0 ∷ 0 ∷ 0 ∷ 0 ∷ 1 ∷ 0 ∷ 2 ∷ 0 ∷ 97 ∷ 47 ∷ 98 ∷ 224
    ∷ 50 ∷ []

abbrev caps_again : Bytes
caps_again =
    165 ∷ 90 ∷ 1 ∷ 17 ∷ 4 ∷ 15 ∷ 0 ∷ 37 ∷ 0 ∷ 1 ∷ 5 ∷ 0 ∷ 0 ∷ 0 ∷ 0 ∷ 0 ∷ 0 ∷ 0 ∷ 17 ∷ 0 ∷ 0 ∷ 0
    ∷ 219 ∷ 166 ∷ []

abbrev arrives : Bytes → Arrivals
arrives input = record { reads = input ∷ []; photos = []; frames = 0; lost = false }

-- Behind each request there is a poll.
abbrev session : Session
session = record (new_session []) {
  client = some (record { seq = 1; pending = []; buf = [] });
  is_open = true;
  hello_ack = some (record { proto_ver = 1; fw_version = 7; caps = 4095 });
  coming =
      arrives caps_first
      ∷ arrives []
      ∷ arrives ids_answer
      ∷ arrives []
      ∷ arrives item_answer
      ∷ arrives []
      ∷ arrives caps_again
      ∷ [];
}

abbrev media_path : Text
media_path =
    47 ∷ 99 ∷ 117 ∷ 115 ∷ 116 ∷ 111 ∷ 109 ∷ 101 ∷ 114 ∷ 47 ∷ 98 ∷ 116 ∷ 95 ∷ 114 ∷ 101 ∷ 115 ∷ 47
    ∷ 98 ∷ []

-- Paths of the device are short for paths in the image folder.
abbrev tools : UrlTools
tools = record {
  urlsplit = λ t. record { scheme = []; netloc = []; query = []; fragment = [] };
  unquote = λ t. media_path;
  parts =
      λ t. (47 ∷ []) ∷ (99 ∷ []) ∷ (98 ∷ []) ∷ (105 ∷ 109 ∷ 97 ∷ 103 ∷ 101 ∷ []) ∷ (98 ∷ []) ∷ [];
}

abbrev ascii : Bytes → Option Text
ascii input = some input

-- The listing is the photo alone.
list_items-distinct_example : By (IsListing 5 []) AnyError (list_items tools ascii 9 5 session).0
list_items-distinct_example = list_items-distinct tools ascii 9 5 session

caps_first-IsBytes : IsBytes caps_first
caps_first-IsBytes = grind arith

ids_answer-IsBytes : IsBytes ids_answer
ids_answer-IsBytes = grind arith

item_answer-IsBytes : IsBytes item_answer
item_answer-IsBytes = grind arith

caps_again-IsBytes : IsBytes caps_again
caps_again-IsBytes = grind arith

session-Clean : CleanSession session
session-Clean = (
  (tt, tt),
  (
    (caps_first-IsBytes, tt),
    (
      (tt, tt),
      (
        (ids_answer-IsBytes, tt),
        ((tt, tt), ((item_answer-IsBytes, tt), ((tt, tt), ((caps_again-IsBytes, tt), tt)))),
      ),
    ),
  ),
)

list_items-terminates_example : (list_items tools ascii (2 ^ 64) 5 session).0 ≢ err out_of_fuel
list_items-terminates_example = list_items-terminates tools ascii 5 session session-Clean
