-- ===== src/Octopus/Mock/Answers.antt =====
-- What a client of the mock server gets.
use activerecord.Prelude.{
  ℕ, List, [], ◌∷◌, ◌++◌, length, map, Option, none, some, true, false, ◌==◌, ◌&&◌, if◌then◌else◌,
  ltb, All, ◌≡◌, refl, sym, ap, arith,
}
use activerecord.Go.{
  Result, ok, err, panic, Bytes, Error, remote, many_tuples, empty_tuple, ok_same,
}
use activerecord.Go.Strings.{codes, same_bytes_refl}
use activerecord.Octopus.Wire.{Tuple}
use activerecord.Octopus.Response.{
  drop_zero, uniq_flag, need_flag, pack_response_status, process_resp, unpack_response_status,
}
use activerecord.Octopus.Response.Status.{process_resp-pack}
use activerecord.Octopus.Response.RoundTrip.{tuple_data}
use activerecord.Octopus.Response.Errors.{status_error_lem}
use activerecord.Iproto.Pack.{IsU32, pack_uint32}
use activerecord.Octopus.Mock.{
  FixtureType, Triggers, matches, find_fixture, triggered, process_request, answer, handle,
  tuples_of, pack_mock_response, response_fixture, create_select_fixture, request_type_select,
}

pub find_fixture-append :
    (msg : ℕ) (req : Bytes) (f : FixtureType) (before behind : List FixtureType)
    → All (λ (g : FixtureType). matches msg req g ≡ false) before
    → matches msg req f ≡ true
    → find_fixture msg req (before ++ (f ∷ behind)) ≡ some f
unfolding find_fixture
find_fixture-append msg req f [] behind h k = rw k refl
find_fixture-append msg req f (g ∷ before) behind h k =
    rw (h.0) (find_fixture-append msg req f before behind h.1 k)

none_found :
    (msg : ℕ) (req : Bytes) (oft : List FixtureType)
    → All (λ (g : FixtureType). matches msg req g ≡ false) oft
    → find_fixture msg req oft ≡ none
unfolding find_fixture
none_found msg req [] h = refl
none_found msg req (g ∷ oft) h = rw (h.0) (none_found msg req oft h.1)

-- The first fixture with the type and the bytes of a request answers it, whatever stands behind it, and
-- its trigger, if it has one, changes the list of all fixtures.
pub handle_first :
    (run : Triggers) (msg : ℕ) (req : Bytes) (f : FixtureType) (before behind : List FixtureType)
    → All (λ (g : FixtureType). matches msg req g ≡ false) before
    → matches msg req f ≡ true
    → handle run (before ++ (f ∷ behind)) msg req
      ≡ (triggered run f (before ++ (f ∷ behind)), f.response)
unfolding handle process_request answer
handle_first run msg req f before behind h k =
    rw (find_fixture-append msg req f before behind h k, process_request) refl

-- A request that no fixture matches leaves the fixtures as they are, and the client reads the answer
-- as an error of the server with the message that no fixture was found.
pub handle_missing :
    (run : Triggers) (msg : ℕ) (req : Bytes) (oft : List FixtureType)
    → All (λ (g : FixtureType). matches msg req g ≡ false) oft
    → ((handle run oft msg req).0 ≡ oft)
      × (unpack_response_status ((handle run oft msg req).1)
          ≡ err (remote (codes "Fixture not found")))
unfolding handle process_request answer pack_uint32 drop_zero
handle_missing run msg req oft h =
    rw (none_found msg req oft h, process_request)
      (refl, status_error_lem 1 (codes "Fixture not found") (omega arith) (λ e. cc))

fixture_ok :
    (last msg : ℕ) (req : Bytes) (trigger : Option ℕ) (r : Result Error Bytes) (f : FixtureType)
    → response_fixture last msg req trigger r ≡ ok f
    → (r ≡ ok f.response) × (f.msg ≡ msg) × (f.request ≡ req)
unfolding response_fixture
fixture_ok last msg req trigger (ok resp) f h =
    let e = ok_same h in
    (
      ap (λ (g : FixtureType). ok (g.response)) e,
      ap (λ (g : FixtureType). g.msg) (sym e),
      ap (λ (g : FixtureType). g.request) (sym e),
    )
fixture_ok last msg req trigger (err e) f h = cc
fixture_ok last msg req trigger panic f h = cc

-- A select request that meets the fixture created for it, with no fixture before it that matches: the
-- client unpacks the tuples of the entities of the fixture, unless its flags refuse their number.
pub handle-create_select_fixture :
    (run : Triggers) (last : ℕ) (req_data : List (Result Error Tuple) → Bytes)
    (ents : List (Result Error Tuple)) (ts : List Tuple) (f : FixtureType)
    (before behind : List FixtureType) (spare : Bytes) (cnt_flag : ℕ)
    → tuples_of ents ≡ ok ts
    → create_select_fixture last req_data ents ≡ ok f
    → All (λ (g : FixtureType). matches request_type_select (req_data ents) g ≡ false) before
    → IsU32 (length f.response)
    → process_resp spare
        ((handle run (before ++ (f ∷ behind)) request_type_select (req_data ents)).1)
        cnt_flag
      ≡ (if uniq_flag cnt_flag && ltb 2 (length ts)
          then err many_tuples
          else if need_flag cnt_flag && length ts == 0
          then err empty_tuple
          else ok (map tuple_data ts))
unfolding create_select_fixture pack_mock_response matches
handle-create_select_fixture run last req_data ents ts f before behind spare cnt_flag t c b u =
    let (r, m, q) =
      fixture_ok last request_type_select (req_data ents) none (pack_mock_response ents) f c in
    let r' : pack_response_status 0 ts ≡ ok f.response = rw (t, pack_mock_response) at r in
    let k : matches request_type_select (req_data ents) f ≡ true =
      rw m (rw q (same_bytes_refl (req_data ents))) in
    rw (handle_first run request_type_select (req_data ents) f before behind b k)
      (process_resp-pack spare ts cnt_flag f.response r' u)
