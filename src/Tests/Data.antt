-- ===== src/Tests/Data.antt =====
-- Data for the tests: one token, two wallets, one offer.
use cap_rail.Indexer.Events.{OfferAccepted, TransferAllowed}
use cap_rail.Indexer.Parse.{IndexedEvent, ParsedTransaction, ProgramTransaction, no_error}
use cap_rail.Indexer.Readers.{Coder}
use cap_rail.Prelude.{List, [], false, none, some, true, ◌∷◌}
use cap_rail.Prelude.Int.{pos}
use cap_rail.Result.{Result, err, ok}
use cap_rail.Shared.Market.{balance_short, open_}
use cap_rail.Worker.Act.{Act, Memory, World}
use cap_rail.Worker.Apply.Lookup.{Chain, Ctx, Lesson}
use cap_rail.Worker.Rows.{HoldingRow, Index, OfferRow}
use cap_rail.Worker.Store.{TokenRef}

abbrev pub coder : Coder
coder = record { decode = λ text. none; encode = λ name value. []; from_base64 = λ text. [] }

-- What stands after a body: the rows that it left, and the rows as they were where it threw.
abbrev pub ended : Index → Result Lesson × World → Result Lesson × World
ended before (ok lesson, w) = (ok lesson, w)
ended before (err e, w) = (err e, record w { index = before })

abbrev whole : Act Lesson → Act Lesson
whole body w = ended w.index (body w)

abbrev pub no_chain : Chain
no_chain = record {
  coder = coder;
  transaction = λ signature. ok none;
  token_account_owner = λ account. ok none;
  token_account_balance = λ account. ok none;
  ata = λ wallet mint. wallet;
  now = pos 9000;
  in_transaction = whole;
}

abbrev pub token : TokenRef
token = record { mint = "M"; company_id = 7; treasury = "T" }

abbrev pub ctx : Ctx
ctx = record { signature = "sig1"; slot = 50; block_time = pos 8000; logs = "log" ∷ [] }

abbrev pub seller_holding : HoldingRow
seller_holding = record {
  mint = "M";
  wallet = "A";
  company_id = 7;
  amount = 100;
  distributed = 5;
  last_signature = "sig0";
  last_slot = 40;
  updated_at = pos 7000;
  verified_at = none;
}

abbrev pub offer : OfferRow
offer = record {
  offer = "O";
  mint = "M";
  company_id = 7;
  seller = "A";
  offer_id = 1;
  amount = 30;
  remaining = 20;
  price_per_unit = 4;
  payment_mint = "U";
  rofr_until = none;
  status = open_;
  created_at = pos 7000;
  created_signature = "sig0";
  created_slot = 40;
  closed_at = none;
  delegation_revoked = none;
  updated_at = pos 7000;
  touched_slot = 40;
  available = some 10;
  stale_reason = some balance_short;
  checked_at = none;
  checked_slot = none;
}

abbrev pub index : Index
index = record {
  companies = [];
  tokens = [];
  policy_versions = [];
  investors = [];
  status_events = [];
  attempts = [];
  holdings = seller_holding ∷ [];
  offers = offer ∷ [];
  trades = [];
}

abbrev pub memory : Memory
memory = record { company_ids = ("C", 7) ∷ []; tokens = ("M", token) ∷ []; owners = [] }

abbrev pub world : World
world = record { index = index; memory = memory; log = [] }

abbrev pub transfer : TransferAllowed
transfer = record {
  company = "C";
  mint = "M";
  source = "A1";
  destination = "B1";
  source_owner = "A";
  destination_owner = "B";
  amount = 60;
  from_treasury = true;
  policy_version = 1;
}

abbrev pub accepted : OfferAccepted
accepted = record {
  offer = "O";
  company = "C";
  mint = "M";
  seller = "A";
  buyer = "B";
  offer_id = 1;
  amount = 8;
  price_per_unit = 4;
  payment = 32;
  fee = 1;
  payment_mint = "U";
  remaining = 12;
  accepted_at = pos 8;
}

abbrev pub transaction : ProgramTransaction
transaction = record {
  signature = "sig1";
  slot = 50;
  block_time = some (pos 8);
  logs = [];
  failed = false;
  error = no_error;
  instructions = none;
}

abbrev pub with_events : List IndexedEvent → ParsedTransaction
with_events events = record {
  signature = "sig1";
  slot = 50;
  block_time = some (pos 8);
  failed = false;
  events = events;
  rejection = none;
  failure = none;
}
