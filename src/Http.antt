-- ===== src/Http.antt =====
-- What the handlers write: http.ResponseWriter as net/http documents it, and responseBuffer of
-- dtu/git.go, which keeps a response until the handler is done with it.
pub mod Replay
use merger_herder_validation.Dict.{empty, items, Dict, put, get}
use merger_herder_validation.Prelude.{
  Option, String, ℕ, List, none, if◌then◌else◌, ◌∷◌, some, [], get_or, ◌==◌, string_key, nat_key,
  ◌++◌, if_some, Bool, leb, ◌&&◌, not,
}
use merger_herder_validation.Text.{◌+++◌}

-- http.Header, and the two methods of it that write.
abbrev pub Header : Type 0
Header = Dict String (List String)

abbrev pub add_value : Header → String → String → Header
add_value h key value = put h key (get_or (get h key) [] ++ value ∷ [])

abbrev pub set_value : Header → String → String → Header
set_value h key value = put h key (value ∷ [])

-- http.ResponseWriter: the header so far, the informational headers that have been sent, what has
-- been sent of the final status and header, and the body.
pub record ResponseWriter : Type 0 where
  pub header : Header
  pub informed : List (ℕ × Header)
  pub sent : Option (ℕ × Header)
  pub body : String

abbrev pub new_writer : ResponseWriter
new_writer = record { header = empty; informed = []; sent = none; body = "" }

-- A 1xx status is informational; 101 is final.
abbrev pub is_informational : ℕ → Bool
is_informational status = leb 100 status && leb status 199 && not (status == 101)

-- An informational status is sent at once, with the header so far, and a final one may follow. The
-- first call with a final status sends it with the header, and ends the header; a write sends 200
-- where none has.
unfoldable pub send_header : ResponseWriter → ℕ → ResponseWriter
send_header r status =
    if_some r.sent
      (if is_informational status
        then record r { informed = r.informed ++ (status, r.header) ∷ [] }
        else record r { sent = some (status, r.header) })
      (λ sent. r)

unfoldable pub send_body : ResponseWriter → String → ResponseWriter
unfolding send_header
send_body r text = record (send_header r 200) { body = r.body +++ text }

-- responseBuffer
pub record ResponseBuffer : Type 0 where
  pub header : Header
  pub body : String
  pub status : ℕ

-- &responseBuffer{header: make(http.Header)}
abbrev pub new_buffer : ResponseBuffer
new_buffer = record { header = empty; body = ""; status = 0 }

unfoldable pub write_header : ResponseBuffer → ℕ → ResponseBuffer
write_header b status = if b.status == 0 then record b { status = status } else b

unfoldable pub write : ResponseBuffer → String → ResponseBuffer
write b text = record b { status = if b.status == 0 then 200 else b.status; body = b.body +++ text }

-- The inner loop of flush.
unfoldable pub add_values : Header → String → List String → Header
add_values h key [] = h
add_values h key (value ∷ rest) = add_values (add_value h key value) key rest

-- The outer loop of flush.
unfoldable pub add_header : Header → List (String × List String) → Header
unfolding add_values
add_header h [] = h
add_header h ((key, values) ∷ rest) = add_header (add_values h key values) rest

unfoldable pub flush : ResponseBuffer → ResponseWriter → ResponseWriter
unfolding add_header send_header send_body
flush b r =
    let headed = record r { header = add_header r.header (items b.header) } in
    send_body (send_header headed (if b.status == 0 then 200 else b.status)) b.body
