-- ===== src/Http/Replay.antt =====
-- A response that is buffered and flushed is the response that would have been written at once.
use text.Mathlib.TextLemmas.{nil-append}
use merger_herder_validation.Text.{◌+++◌}
use merger_herder_validation.Dict.{
  put, get, get-put, IsDistinct, IsDistinct-put, empty, items, IsDistinct-items, get-find,
  get-empty, IsDistinct-empty,
}
use merger_herder_validation.Dict.Entries.{find, Distinct}
use merger_herder_validation.Prelude.{
  String, List, ℕ, get_or, ◌≡◌, ◌∷◌, if◌then◌else◌, ◌++◌, [], string_key, ◌==◌, sym, arith, inl,
  append-nil, none, ◌∙◌, ◌⊎◌, Bool-cases, inr, eq_iff, some, ap, if_cases, nat_key, append_assoc,
  refl, All, false, nat_beq_iff, ◌≤◌,
}
use merger_herder_validation.Http.{
  ResponseBuffer, Header, add_values, write_header, ResponseWriter, send_header, add_header,
  send_body, write, set_value, add_value, flush, new_buffer, new_writer, is_informational,
}

-- What a handler does with its writer.
pub data Call : Type 0 where
  sets adds : String → String → Call
  writes_header : ℕ → Call
  writes : String → Call

unfoldable pub call_buffer : ResponseBuffer → Call → ResponseBuffer
unfolding write_header write
call_buffer b (sets key value) = record b { header = set_value b.header key value }
call_buffer b (adds key value) = record b { header = add_value b.header key value }
call_buffer b (writes_header status) = write_header b status
call_buffer b (writes text) = write b text

unfoldable pub call_writer : ResponseWriter → Call → ResponseWriter
unfolding send_header send_body
call_writer r (sets key value) = record r { header = set_value r.header key value }
call_writer r (adds key value) = record r { header = add_value r.header key value }
call_writer r (writes_header status) = send_header r status
call_writer r (writes text) = send_body r text

unfoldable pub buffered : ResponseBuffer → List Call → ResponseBuffer
unfolding call_buffer
buffered b [] = b
buffered b (c ∷ rest) = buffered (call_buffer b c) rest

unfoldable pub at_once : ResponseWriter → List Call → ResponseWriter
unfolding call_writer
at_once r [] = r
at_once r (c ∷ rest) = at_once (call_writer r c) rest

-- What the client sees in the end: net/http sends 200 and the header where nothing was sent.
abbrev pub seen : ResponseWriter → ℕ × Header
seen r = get_or r.sent (200, r.header)

-- The header comes first, and a status is a final one.
abbrev pub IsHeaderCall : Call → Type 0
IsHeaderCall (sets key value) = Unit
IsHeaderCall (adds key value) = Unit
IsHeaderCall _ = ⊥

abbrev pub IsBodyCall : Call → Type 0
IsBodyCall (writes_header status) = 200 ≤ status
IsBodyCall (writes text) = Unit
IsBodyCall _ = ⊥

-- http.Header.Values
abbrev pub values_of : Header → String → List String
values_of h key = get_or (get h key) []

values_of-put :
    (h : Header) (key k : String) (values : List String)
    → values_of (put h key values) k ≡ (if key == k then values else values_of h k)
values_of-put h key k values = ground (arith, get-put h key k values)

values_of-add_values :
    (h : Header) (key : String) (values : List String) (k : String)
    → values_of (add_values h key values) k
      ≡ (if key == k then values_of h k ++ values else values_of h k)
unfolding add_values
values_of-add_values h key [] k = ground (arith, append-nil (values_of h k))
values_of-add_values h key (value ∷ rest) k =
    values_of-add_values (add_value h key value) key rest k ∙ one
  where
    one :
        (if key == k
          then values_of (add_value h key value) k ++ rest
          else values_of (add_value h key value) k)
        ≡ (if key == k then values_of h k ++ value ∷ rest else values_of h k)
    one = elim (Bool-cases (key == k)) [
      | inl hit ↦
          rw (hit, values_of-put h key k (values_of h key ++ value ∷ []), hit)
            (let same : key ≡ k = (eq_iff key k).0 hit in
              rw same (append_assoc (values_of h k) (value ∷ []) rest))
      | inr miss ↦ rw (miss, values_of-put h key k (values_of h key ++ value ∷ []), miss) refl
    ]

values_of-add_header :
    (h : Header) (l : List (String × List String)) (k : String)
    → Distinct l
    → values_of (add_header h l) k ≡ values_of h k ++ get_or (find k l) []
unfolding add_header find
values_of-add_header h [] k distinct = sym (append-nil (values_of h k))
values_of-add_header h ((key, values) ∷ rest) k distinct =
    values_of-add_header (add_values h key values) rest k distinct.1
    ∙ elim (Bool-cases (key == k)) [
      | inl hit ↦
          let same : key ≡ k = (eq_iff key k).0 hit in
          rw (values_of-add_values h key values k, hit)
            (rw (missing k same) (append-nil (values_of h k ++ values)))
      | inr miss ↦ rw (values_of-add_values h key values k, miss) refl
    ]
  where
    missing : (k : String) → key ≡ k → get_or (find k rest) [] ≡ []
    missing k same = ground (arith, distinct.0)

IsDistinct-call_buffer :
    (b : ResponseBuffer) (c : Call) → IsDistinct b.header → IsDistinct (call_buffer b c).header
unfolding call_buffer write_header write
IsDistinct-call_buffer b (sets key value) h = IsDistinct-put b.header key _ h
IsDistinct-call_buffer b (adds key value) h = IsDistinct-put b.header key _ h
IsDistinct-call_buffer b (writes_header status) h =
    if_cases (λ (x : ResponseBuffer). IsDistinct x.header) (b.status == 0) _ _ (λ _. h) (λ _. h)
IsDistinct-call_buffer b (writes text) h = h

-- What a buffer and a writer have in common after the same calls.
record IsAlike (b : ResponseBuffer) (r : ResponseWriter) : Type 0 where
  distinct : IsDistinct b.header
  header : b.header ≡ r.header
  body : b.body ≡ r.body
  status :
      ((b.status ≡ 0) × (r.sent ≡ none)) ⊎ ((200 ≤ b.status) × (r.sent ≡ some (b.status, b.header)))
  informed : r.informed ≡ []

-- A call that does not write the header after it has been sent.
IsAlike-header_call :
    (b : ResponseBuffer) (r : ResponseWriter) (c : Call)
    → IsHeaderCall c
    → r.sent ≡ none
    → IsAlike b r
    → IsAlike (call_buffer b c) (call_writer r c) × ((call_writer r c).sent ≡ none)
unfolding call_buffer call_writer
IsAlike-header_call b r (sets key value) is unsent h = (
  record {
    distinct = IsDistinct-put b.header key _ h.distinct;
    header = ap (λ x. set_value x key value) h.header;
    body = h.body;
    informed = h.informed;
    status = elim h.status [ inl e ↦ inl e | inr e ↦ absurd (ground (arith, e.1)) ];
  },
  unsent,
)
IsAlike-header_call b r (adds key value) is unsent h = (
  record {
    distinct = IsDistinct-put b.header key _ h.distinct;
    header = ap (λ x. add_value x key value) h.header;
    body = h.body;
    informed = h.informed;
    status = elim h.status [ inl e ↦ inl e | inr e ↦ absurd (ground (arith, e.1)) ];
  },
  unsent,
)
IsAlike-header_call b r (writes_header status) is unsent h = absurd is
IsAlike-header_call b r (writes text) is unsent h = absurd is

pub final_status : (status : ℕ) → 200 ≤ status → is_informational status ≡ false
final_status status is = ground (arith, nat_beq_iff status 101)

IsAlike-body_call :
    (b : ResponseBuffer) (r : ResponseWriter) (c : Call)
    → IsBodyCall c
    → IsAlike b r
    → IsAlike (call_buffer b c) (call_writer r c)
unfolding call_buffer call_writer write_header write send_header send_body
IsAlike-body_call b r (sets key value) is h = absurd is
IsAlike-body_call b r (adds key value) is h = absurd is
IsAlike-body_call b r (writes_header status) is h = elim h.status [
  | inl (fresh, unsent) ↦
      rw (fresh, unsent, final_status status is)
        (record {
          distinct = h.distinct;
          header = h.header;
          body = h.body;
          informed = h.informed;
          status = inr (is, ap (λ (x : Header). some (status, x)) (sym h.header));
        })
  | inr (kept, sent) ↦
      let old : (b.status == 0) ≡ false = ground (arith, nat_beq_iff b.status 0) in
      rw (old, sent)
        (record {
          distinct = h.distinct;
          header = h.header;
          body = h.body;
          informed = h.informed;
          status = inr (kept, refl);
        })
]
IsAlike-body_call b r (writes text) is h = elim h.status [
  | inl (fresh, unsent) ↦
      rw (fresh, unsent)
        (record {
          distinct = h.distinct;
          header = h.header;
          body = ap (λ s. s +++ text) h.body;
          informed = h.informed;
          status = inr (omega arith, ap (λ (x : Header). some (200, x)) (sym h.header));
        })
  | inr (kept, sent) ↦
      let old : (b.status == 0) ≡ false = ground (arith, nat_beq_iff b.status 0) in
      rw (old, sent)
        (record {
          distinct = h.distinct;
          header = h.header;
          body = ap (λ s. s +++ text) h.body;
          informed = h.informed;
          status = inr (kept, refl);
        })
]

IsAlike-headers :
    (b : ResponseBuffer) (r : ResponseWriter) (calls : List Call)
    → All IsHeaderCall calls
    → r.sent ≡ none
    → IsAlike b r
    → IsAlike (buffered b calls) (at_once r calls)
unfolding buffered at_once
IsAlike-headers b r [] all unsent h = h
IsAlike-headers b r (c ∷ rest) all unsent h =
    let (alike, still) = IsAlike-header_call b r c all.0 unsent h in
    IsAlike-headers (call_buffer b c) (call_writer r c) rest all.1 still alike

IsAlike-body_calls :
    (b : ResponseBuffer) (r : ResponseWriter) (calls : List Call)
    → All IsBodyCall calls
    → IsAlike b r
    → IsAlike (buffered b calls) (at_once r calls)
unfolding buffered at_once
IsAlike-body_calls b r [] all h = h
IsAlike-body_calls b r (c ∷ rest) all h =
    IsAlike-body_calls (call_buffer b c) (call_writer r c) rest all.1
      (IsAlike-body_call b r c all.0 h)

-- What the client sees of two responses is the same: the informational headers, the status, the
-- values of each key of the header, and the body.
abbrev pub IsSameResponse : ResponseWriter → ResponseWriter → Type 0
IsSameResponse r s =
    (r.informed ≡ s.informed)
    × ((seen r).0 ≡ (seen s).0)
    × ((key : String) → values_of (seen r).1 key ≡ values_of (seen s).1 key)
    × (r.body ≡ s.body)

header_of_flush :
    (b : ResponseBuffer) (k : String)
    → IsDistinct b.header
    → values_of (add_header empty (items b.header)) k ≡ values_of b.header k
header_of_flush b k distinct =
    values_of-add_header empty (items b.header) k (IsDistinct-items b.header distinct)
    ∙ ground (arith, get-find b.header k, get-empty {V = List String} k)

flush_alike :
    (b : ResponseBuffer) (r : ResponseWriter) → IsAlike b r → IsSameResponse (flush b new_writer) r
unfolding flush send_header send_body
flush_alike b r h = elim h.status [
  | inl (fresh, unsent) ↦
      rw (fresh, unsent)
        (
          sym h.informed,
          refl,
          λ k. header_of_flush b k h.distinct ∙ ap (λ x. values_of x k) h.header,
          nil-append b.body ∙ h.body,
        )
  | inr (kept, sent) ↦
      let old : (b.status == 0) ≡ false = ground (arith, nat_beq_iff b.status 0) in
      rw (old, sent, final_status b.status kept)
        (sym h.informed, refl, λ k. header_of_flush b k h.distinct, nil-append b.body ∙ h.body)
]

-- A response that goes through responseBuffer and is flushed to a new writer is the response that
-- the same calls give when they write at once: no informational header, the same status, the same
-- values of each header key, the same body. The calls are those of a handler that writes its header
-- first and then calls WriteHeader and Write any number of times, with statuses of at least 200.
pub flush-buffered :
    (headers bodies : List Call)
    → All IsHeaderCall headers
    → All IsBodyCall bodies
    → IsSameResponse
        (flush (buffered (buffered new_buffer headers) bodies) new_writer)
        (at_once (at_once new_writer headers) bodies)
flush-buffered headers bodies all_headers all_bodies = flush_alike _ _ (
    IsAlike-body_calls (buffered new_buffer headers) (at_once new_writer headers) bodies all_bodies
      (IsAlike-headers new_buffer new_writer headers all_headers refl (record {
        distinct = IsDistinct-empty String (List String);
        header = refl;
        body = refl;
        informed = refl;
        status = inl (refl, refl);
      })))
