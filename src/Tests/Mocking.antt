-- ===== src/Tests/Mocking.antt =====
-- The mock server on concrete fixtures.
use activerecord.Iproto.Pack.{pack_uint32, pack_bytes, pack_uint64_ber, ber_loop}
use activerecord.Prelude.{List, [], ◌∷◌, none, ◌≡◌, refl, arith}
use activerecord.Go.{Result, ok, Bytes, Error}
use activerecord.Octopus.Wire.{Tuple, pack_field}
use activerecord.Octopus.Response.{
  process_resp, pack_response_status, pack_tuples_ok, pack_resp_tuple, tuple_payload,
}
use activerecord.Octopus.Mock.{
  FixtureType, Triggers, handle, create_select_fixture, matches, response_fixture,
  pack_mock_response, tuples_of,
}
use activerecord.Octopus.Mock.Answers.{handle-create_select_fixture}

abbrev no_triggers : Triggers
no_triggers name oft = oft

abbrev request_of : List (Result Error Tuple) → Bytes
request_of ents = b'q' ∷ []

abbrev entities : List (Result Error Tuple)
entities = ok ((b'1' ∷ []) ∷ []) ∷ []

abbrev select_fixture : FixtureType
select_fixture = record {
  id = 1;
  msg = 17;
  request = b'q' ∷ [];
  response = 0 ∷ 0 ∷ 0 ∷ 0 ∷ 1 ∷ 0 ∷ 0 ∷ 0 ∷ 6 ∷ 0 ∷ 0 ∷ 0 ∷ 1 ∷ 0 ∷ 0 ∷ 0 ∷ 1 ∷ b'1' ∷ [];
  trigger = none;
}

created : create_select_fixture 0 request_of entities ≡ ok select_fixture
unfolding create_select_fixture response_fixture pack_mock_response tuples_of pack_response_status
    pack_tuples_ok pack_resp_tuple pack_uint32 tuple_payload pack_field pack_bytes pack_uint64_ber
    ber_loop
created = refl

abbrev other_fixture : FixtureType
other_fixture = record select_fixture { request = b'x' ∷ [] }

handle-create_select_fixture_example :
    process_resp [] ((handle no_triggers (other_fixture ∷ select_fixture ∷ []) 17 (b'q' ∷ [])).1) 2
    ≡ ok (record { cnt = 1; fields = (b'1' ∷ []) ∷ [] } ∷ [])
unfolding matches tuples_of
handle-create_select_fixture_example =
    handle-create_select_fixture no_triggers 0 request_of entities (((b'1' ∷ []) ∷ []) ∷ [])
      select_fixture (other_fixture ∷ []) [] [] 2 refl created (refl, tt) (omega arith)
