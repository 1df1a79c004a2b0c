-- ===== src/Octopus/Mock.antt =====
-- pkg/octopus/mock_server.go and testutil.go: a server that answers from fixtures. ProcessRequest and
-- SetFixtures hold the mutex, so each is one step. A trigger is a function of the tests, a name here;
-- what it does is a parameter. The entities of a fixture are what MockSelectResponse gives: their
-- tuples, or an error. A nil request is not told from an empty one, as reflect.DeepEqual would do.
pub mod Answers
use activerecord.Prelude.{
  ℕ, ◌+◌, ◌%◌, ◌^◌, List, [], ◌∷◌, ◌++◌, length, Option, none, some, Bool, true, false, ◌==◌, ◌&&◌,
  if◌then◌else◌,
}
use activerecord.Go.{Result, ok, err, panic, Bytes, Error}
use activerecord.Go.Strings.{codes, same_bytes}
use activerecord.Octopus.Wire.{Tuple, Ops}
use activerecord.Octopus.Request.{
  unpack_insert_replace, unpack_select, unpack_update, unpack_delete, unpack_lua,
}
use activerecord.Octopus.Response.{TupleData, pack_response_status, process_resp}

pub record FixtureType : Type 0 where
  pub id : ℕ
  pub msg : ℕ
  pub request : Bytes
  pub response : Bytes
  pub trigger : Option ℕ

abbrev pub Triggers : Type 0
Triggers = ℕ → List FixtureType → List FixtureType

abbrev pub request_type_insert : ℕ
request_type_insert = 13

abbrev pub request_type_select : ℕ
request_type_select = 17

abbrev pub request_type_update : ℕ
request_type_update = 19

abbrev pub request_type_delete : ℕ
request_type_delete = 21

abbrev pub request_type_call : ℕ
request_type_call = 22

-- The fixtures that a message about a missing one shows, with what is unpacked from them.
pub record SelectMockFixture : Type 0 where
  pub indexnum : ℕ
  pub offset : ℕ
  pub limit : ℕ
  pub keys : List Tuple
  pub resp_tuples : List TupleData

pub record CallMockFixture : Type 0 where
  pub proc_name : Bytes
  pub args : Tuple
  pub resp_tuples : List TupleData

-- What the logger is called with: after an error in unpacking only that.
pub data LogEntry : Type 0 where
  unpack_failed : LogEntry
  select_request : ℕ × ℕ × ℕ × ℕ × List Tuple → List SelectMockFixture → LogEntry
  update_request : ℕ × Tuple × List Ops → List (Tuple × List Ops) → LogEntry
  insert_request : ℕ × Bool × ℕ × Tuple → List (Bool × ℕ × Tuple) → LogEntry
  delete_request : ℕ × Tuple → List Tuple → LogEntry
  call_request : Bytes × Tuple → List CallMockFixture → LogEntry
  not_supported : ℕ → LogEntry

-- `if err != nil { Debug(…); return }`
logged : {A : Type 0} → Result Error A → (A → Result Error LogEntry) → Result Error LogEntry
logged (ok a) f = f a
logged (err e) f = ok unpack_failed
logged panic f = panic

-- The loop over the fixtures of one type: `look` is what one of them adds, if it is about the same
-- space or procedure.
shown :
    {B : Type 0}
    → (FixtureType → (Option B → Result Error LogEntry) → Result Error LogEntry)
    → (List B → LogEntry)
    → ℕ
    → List B
    → List FixtureType
    → Result Error LogEntry
shown look done msg acc [] = ok (done acc)
shown look done msg acc (f ∷ fs) =
    if f.msg == msg
    then look f (λ o. elim o [
      | none ↦ shown look done msg acc fs
      | some b ↦ shown look done msg (acc ++ (b ∷ [])) fs
    ])
    else shown look done msg acc fs

-- `spare` is the memory behind a response.
look_select :
    Bytes
    → ℕ
    → FixtureType
    → (Option SelectMockFixture → Result Error LogEntry)
    → Result Error LogEntry
look_select spare req_ns f next = logged (unpack_select f.request) (λ s.
    if req_ns == s.0
    then logged (process_resp spare f.response 0) (λ ts.
      next
        (some (record { indexnum = s.1; offset = s.2; limit = s.3; keys = s.4; resp_tuples = ts })))
    else next none)

look_update :
    ℕ → FixtureType → (Option (Tuple × List Ops) → Result Error LogEntry) → Result Error LogEntry
look_update req_ns f next =
    logged (unpack_update f.request)
      (λ u. if req_ns == u.0 then next (some (u.1, u.2)) else next none)

look_insert :
    ℕ → FixtureType → (Option (Bool × ℕ × Tuple) → Result Error LogEntry) → Result Error LogEntry
look_insert req_ns f next =
    logged (unpack_insert_replace f.request)
      (λ i. if req_ns == i.0 then next (some (i.1, i.2, i.3)) else next none)

look_delete : ℕ → FixtureType → (Option Tuple → Result Error LogEntry) → Result Error LogEntry
look_delete req_ns f next =
    logged (unpack_delete f.request) (λ d. if req_ns == d.0 then next (some (d.1)) else next none)

look_call :
    Bytes
    → Bytes
    → FixtureType
    → (Option CallMockFixture → Result Error LogEntry)
    → Result Error LogEntry
look_call spare name f next = logged (unpack_lua f.request) (λ c.
    if same_bytes name (c.0)
    then logged (process_resp spare f.response 0)
        (λ ts. next (some (record { proc_name = c.0; args = c.1; resp_tuples = ts })))
    else next none)

pub debug_fixture_not_found : Bytes → List FixtureType → ℕ → Bytes → Result Error LogEntry
debug_fixture_not_found spare oft msg req =
    if msg == request_type_select
    then logged (unpack_select req)
        (λ s. shown (look_select spare (s.0)) (select_request s) msg [] oft)
    else if msg == request_type_update
    then logged (unpack_update req) (λ u. shown (look_update (u.0)) (update_request u) msg [] oft)
    else if msg == request_type_insert
    then logged (unpack_insert_replace req)
        (λ i. shown (look_insert (i.0)) (insert_request i) msg [] oft)
    else if msg == request_type_delete
    then logged (unpack_delete req) (λ d. shown (look_delete (d.0)) (delete_request d) msg [] oft)
    else if msg == request_type_call
    then logged (unpack_lua req) (λ c. shown (look_call spare (c.0)) (call_request c) msg [] oft)
    else ok (not_supported msg)

unfoldable pub matches : ℕ → Bytes → FixtureType → Bool
matches msg req f = f.msg == msg && same_bytes f.request req

unfoldable pub find_fixture : ℕ → Bytes → List FixtureType → Option FixtureType
find_fixture msg req [] = none
find_fixture msg req (f ∷ fs) =
    let rest = find_fixture msg req fs in if matches msg req f then some f else rest

unfoldable pub triggered : Triggers → FixtureType → List FixtureType → List FixtureType
triggered run f oft = elim (f.trigger) [ none ↦ oft | some name ↦ run name oft ]

-- The fixtures after the call, and the response if one is found. The log is apart, in
-- debug_fixture_not_found.
unfoldable pub process_request :
    Triggers → List FixtureType → ℕ → Bytes → List FixtureType × Option Bytes
process_request run oft msg req = elim (find_fixture msg req oft) [
  | some f ↦ (triggered run f oft, some f.response)
  | none ↦ (oft, none)
]

-- What Handler sends.
unfoldable pub answer : Option Bytes → Bytes
answer (some resp) = resp
answer none = 1 ∷ 0 ∷ 0 ∷ 0 ∷ codes "Fixture not found"

unfoldable pub handle : Triggers → List FixtureType → ℕ → Bytes → List FixtureType × Bytes
handle run oft msg req =
    ((process_request run oft msg req).0, answer ((process_request run oft msg req).1))

-- PackMockResponse
unfoldable pub tuples_of : List (Result Error Tuple) → Result Error (List Tuple)
tuples_of [] = ok []
tuples_of (m ∷ ms) = elim m [
  | ok t ↦ elim (tuples_of ms) [ ok ts ↦ ok (t ∷ ts) | err e ↦ err e | panic ↦ panic ]
  | err e ↦ err e
  | panic ↦ panic
]

unfoldable pub pack_mock_response : List (Result Error Tuple) → Result Error Bytes
pack_mock_response ome = elim (tuples_of ome) [
  | ok ts ↦ pack_response_status 0 ts
  | err e ↦ err e
  | panic ↦ panic
]

-- The fixtures of a request with a response to it; `last` is `fixtureID`, whose new value the fixture
-- gets.
unfoldable pub response_fixture :
    ℕ → ℕ → Bytes → Option ℕ → Result Error Bytes → Result Error FixtureType
response_fixture last msg req trigger (ok resp) = ok (record {
  id = (last + 1) % 2 ^ 32;
  msg = msg;
  request = req;
  response = resp;
  trigger = trigger;
})
response_fixture last msg req trigger (err e) = err e
response_fixture last msg req trigger panic = panic

unfoldable pub create_select_fixture :
    ℕ → (List (Result Error Tuple) → Bytes) → List (Result Error Tuple) → Result Error FixtureType
create_select_fixture last req_data resp_ent =
    response_fixture last request_type_select (req_data resp_ent) none (pack_mock_response resp_ent)

unfoldable pub create_call_fixture :
    ℕ → (List (Result Error Tuple) → Bytes) → List (Result Error Tuple) → Result Error FixtureType
create_call_fixture last req_data resp_ent =
    response_fixture last request_type_call (req_data resp_ent) none (pack_mock_response resp_ent)

abbrev pub dummy_resp_bytes : List Tuple
dummy_resp_bytes = ((b'0' ∷ []) ∷ []) ∷ []

-- log.Fatalf, which ends the process on an error, is the error here.
unfoldable pub create_update_fixture : ℕ → Bytes → Option ℕ → Result Error FixtureType
create_update_fixture last req trigger =
    response_fixture last request_type_update req trigger (pack_response_status 0 dummy_resp_bytes)

unfoldable pub create_delete_fixture : ℕ → Bytes → Option ℕ → Result Error FixtureType
create_delete_fixture last req trigger =
    response_fixture last request_type_delete req trigger (pack_response_status 0 dummy_resp_bytes)

unfoldable pub create_insert_or_replace_fixture :
    ℕ → Result Error Tuple → Bytes → Option ℕ → Result Error FixtureType
create_insert_or_replace_fixture last entity req trigger =
    response_fixture last request_type_insert req trigger (pack_mock_response (entity ∷ []))
