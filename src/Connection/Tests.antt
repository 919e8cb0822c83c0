-- ===== src/Connection/Tests.antt =====
-- The theorems on coverage and reassembly at concrete inputs.
use smb1client_rs.Base.{
  ℕ, zero, suc, ◌+◌, ◌≤◌, ◌<◌, ◌≡◌, ◌↔◌, ◌⊎◌, refl, true, false, ◌||◌, ltb, none, some, List, [],
  ◌∷◌, arith, ok, get_elem?,
}
use smb1client_rs.Connection.Coverage.{Coverage, holds, cover, gap, covers}
use smb1client_rs.Connection.Coverage.Normal.{IsNormal}
use smb1client_rs.Connection.Coverage.Bytes.{within}
use smb1client_rs.Connection.Coverage.Cover.{cover_iff, cover_lem}
use smb1client_rs.Connection.Coverage.Gap.{IsFirstGap, gap_cases, covers_iff}
use smb1client_rs.Connection.Track
use smb1client_rs.Connection.Assembly.{
  Assembly, new, accept, reassemble, fragment_cap, empty_tolerance,
}
use smb1client_rs.Connection.Assembly.Ready.{IsHonest}
use smb1client_rs.Connection.Assembly.Deliver.{
  AreDisjoint, Cover, parameter_spans, data_spans, reassemble-delivers,
}
use smb1client_rs.Connection.Assembly.Carried.{
  IsCarried, parameter_pieces, data_pieces, reassemble-IsCarried,
}
use smb1client_rs.Connection.Assembly.Guards.{reassemble_waits}
use smb1client_rs.Connection.Assembly.Deliver.{empties}
use smb1client_rs.Connection.Limits.{Negotiated}
use smb1client_rs.Wire.Transaction.{TransactionResponse}
use smb1client_rs.Connection.Track.{parameter_block, data_block}

-- Bytes 1, 2, 5 and 6 of 8.
abbrev two_runs : Coverage
two_runs = record { ranges = (1, 3) ∷ (5, 7) ∷ [] }

two_runs-IsNormal : IsNormal 0 two_runs.ranges
two_runs-IsNormal = (omega arith, omega arith, (omega arith, omega arith, tt))

cover_iff_example :
    ((cover two_runs 3 2).1 ≡ true) ↔ ((i : ℕ) → 3 ≤ i → i < 5 → holds two_runs.ranges i ≡ false)
cover_iff_example = cover_iff two_runs 3 2 two_runs-IsNormal

cover_lem_example :
    IsNormal 0 (cover two_runs 3 2).0.ranges
    × (((cover two_runs 3 2).1 ≡ true)
          × ((i : ℕ)
              → holds (cover two_runs 3 2).0.ranges i ≡ (holds two_runs.ranges i || within 3 5 i))
        ⊎ ((cover two_runs 3 2).1 ≡ false) × ((cover two_runs 3 2).0 ≡ two_runs))
cover_lem_example = cover_lem two_runs 3 2 two_runs-IsNormal

gap_cases_example :
    ((gap two_runs 8 ≡ none) × ((i : ℕ) → i < 8 → holds two_runs.ranges i ≡ true))
    ⊎ ((a : ℕ) × (b : ℕ) × (gap two_runs 8 ≡ some (a, b)) × IsFirstGap two_runs 8 a b)
gap_cases_example = gap_cases two_runs 8 two_runs-IsNormal (omega arith)

abbrev one_run : Coverage
one_run = record { ranges = (0, 4) ∷ [] }

one_run-IsNormal : IsNormal 0 one_run.ranges
one_run-IsNormal = (omega arith, omega arith, tt)

one_run_full : gap one_run 4 ≡ none
unfolding gap
one_run_full = refl

covers_iff_example : (covers one_run 4 ≡ true) ↔ ((i : ℕ) → holds one_run.ranges i ≡ ltb i 4)
covers_iff_example = covers_iff one_run 4 one_run-IsNormal

-- A reply of one parameter byte and three data bytes, in two messages, the last one first.
abbrev last_message : TransactionResponse
last_message = record {
  total_parameter_count = 1;
  total_data_count = 3;
  parameter_displacement = 0;
  data_displacement = 2;
  parameter_offset = 60;
  data_offset = 64;
  setup = [];
  parameters = 7 ∷ [];
  payload = 3 ∷ [];
}

abbrev first_message : TransactionResponse
first_message = record {
  total_parameter_count = 1;
  total_data_count = 3;
  parameter_displacement = 1;
  data_displacement = 0;
  parameter_offset = 60;
  data_offset = 64;
  setup = [];
  parameters = [];
  payload = 1 ∷ 2 ∷ [];
}

abbrev messages : List TransactionResponse
messages = last_message ∷ first_message ∷ []

abbrev reply_parameters : List ℕ
reply_parameters = 7 ∷ []

abbrev reply_data : List ℕ
reply_data = 1 ∷ 2 ∷ 3 ∷ []

one_parameter :
    (k : ℕ) → k < 1 → 0 + k < 1 → get_elem? (7 ∷ []) k ≡ get_elem? reply_parameters (0 + k)
one_parameter zero h l = refl
one_parameter (suc k) h l = absurd (omega (arith, h))

last_byte : (k : ℕ) → k < 1 → 2 + k < 3 → get_elem? (3 ∷ []) k ≡ get_elem? reply_data (2 + k)
last_byte zero h l = refl
last_byte (suc k) h l = absurd (omega (arith, h))

no_parameter : (k : ℕ) → k < 0 → 1 + k < 1 → get_elem? [] k ≡ get_elem? reply_parameters (1 + k)
no_parameter k h l = absurd (omega (arith, h))

first_bytes : (k : ℕ) → k < 2 → 0 + k < 3 → get_elem? (1 ∷ 2 ∷ []) k ≡ get_elem? reply_data (0 + k)
first_bytes zero h l = refl
first_bytes (suc zero) h l = refl
first_bytes (suc (suc k)) h l = absurd (omega (arith, h))

first_message-IsHonest : IsHonest reply_parameters reply_data first_message
first_message-IsHonest = record {
  parameter_total = refl;
  data_total = refl;
  parameter_slice = record { fits = omega arith; same = no_parameter };
  data_slice = record { fits = omega arith; same = first_bytes };
}

last_message-IsHonest : IsHonest reply_parameters reply_data last_message
last_message-IsHonest = record {
  parameter_total = refl;
  data_total = refl;
  parameter_slice = record { fits = omega arith; same = one_parameter };
  data_slice = record { fits = omega arith; same = last_byte };
}

parameters_once : AreDisjoint (parameter_spans messages)
unfolding holds
parameters_once = ((λ i h. ground (arith, h)), ((λ i h. refl), tt))

parameters_all : Cover 1 (parameter_spans messages)
unfolding holds
parameters_all i h = ground (arith, h)

data_once : AreDisjoint (data_spans messages)
unfolding holds
data_once = ((λ i h. ground (arith, h)), ((λ i h. refl), tt))

data_all : Cover 3 (data_spans messages)
unfolding holds
data_all i h = ground (arith, h)

reassemble-delivers_example :
    (setup : List ℕ) × (reassemble (new 8 8) messages
      ≡ ok (some (setup, reply_parameters, reply_data)))
reassemble-delivers_example =
    reassemble-delivers reply_parameters reply_data 8 8 last_message (first_message ∷ [])
      (omega arith) (omega arith) (omega arith) (omega arith)
      (last_message-IsHonest, (first_message-IsHonest, tt)) parameters_once parameters_all data_once
      data_all

messages_done : reassemble (new 8 8) messages ≡ ok (some ([], reply_parameters, reply_data))
unfolding reassemble new Track.declare Track.accept cover Track.is_complete covers Track.take_bytes
messages_done = refl

reassemble-IsCarried_example :
    IsCarried (parameter_pieces messages) 8 reply_parameters
    × IsCarried (data_pieces messages) 8 reply_data
reassemble-IsCarried_example = reassemble-IsCarried 8 8 messages messages_done

messages_wait : reassemble (new 8 8) (last_message ∷ []) ≡ ok none
unfolding reassemble new Track.declare Track.accept cover Track.is_complete covers
messages_wait = refl

reassemble_waits_example : (1 ≤ fragment_cap) × (empties (last_message ∷ []) ≤ empty_tolerance)
reassemble_waits_example = reassemble_waits 8 8 (last_message ∷ []) messages_wait

-- The reassembly after its first message.
abbrev halfway : Assembly
halfway = record {
  parameters = record {
    block = parameter_block;
    total = 1;
    declared = true;
    asked = 8;
    covered = record { ranges = (0, 1) ∷ [] };
    bytes = some (7 ∷ []);
  };
  payload = record {
    block = data_block;
    total = 3;
    declared = true;
    asked = 8;
    covered = record { ranges = (2, 3) ∷ [] };
    bytes = some (0 ∷ 0 ∷ 3 ∷ []);
  };
  setup = [];
  fragments = 1;
  empty = 0;
  buffered = true;
}

-- A server that takes 16,644 bytes at once, has both large capabilities, and works on ten requests.
abbrev server : Negotiated
server = record { max_mpx_count = 10; max_buffer_size = 16_644; capabilities = 0xC000 }
