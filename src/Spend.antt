-- ===== src/Spend.antt =====
-- internal/idbimap: spend rows out of the statements of the bank (393) and of the aggregator (595, 739).
-- A float64 is the number that its bits make, so 0.0 is 0; a time is in seconds from Go's zero time. What
-- time.Parse and strconv.ParseFloat read is an argument.
pub mod Table
pub mod Lookup
pub mod Upserted
use astra_backend.Prelude.{
  ℕ, ◌+◌, String, Bool, true, false, not, ◌&&◌, ◌||◌, Option, none, some, List, [], ◌∷◌, ◌++◌, map,
  Text, lit, text_eq, is_empty, trim_space, to_lower, to_upper, index, ◌==◌, if◌then◌else◌, select,
}

-- `time.Parse(layout, s)` and `strconv.ParseFloat(s, 64)`, with `none` for an error.
pub record Parser : Type 0 where
  pub parse_layout : Text → Text → Option ℕ
  pub parse_float : Text → Option ℕ

-- `SpendRow`
pub record SpendRow : Type 0 where
  pub external_id : Text
  pub account_ref : Text
  pub amount : ℕ
  pub kind : Text
  pub category : Text
  pub merchant : Text
  pub occurred_at : ℕ

-- `idbi.Money`
pub record Money : Type 0 where
  pub amount_value : Text
  pub currency_code : Text

-- `idbi.StatementTxn`, with the fields of its summary.
pub record StatementTxn : Type 0 where
  pub pstd_date : Text
  pub txn_amt : Money
  pub txn_date : Text
  pub txn_desc : Text
  pub txn_type_code : Text
  pub txn_balance : Money
  pub txn_id : Text
  pub txn_srl_no : Text
  pub value_date : Text

-- `idbi.FullStatementResponse`, as far as it is read.
pub record FullStatement : Type 0 where
  pub has_more_data : Text
  pub transaction_details : List StatementTxn

-- A transaction of `idbi.AAStatementAccount`, and the account.
pub record AggregatorTxn : Type 0 where
  pub txn_id : Text
  pub amount : Text
  pub code : Text
  pub mode : Text
  pub narration : Text
  pub transaction_timestamp : Text
  pub value_date : Text

pub record StatementAccount : Type 0 where
  pub link_reference_number : Text
  pub transactions : List AggregatorTxn

-- `idbiTimeLayouts`
abbrev idbi_time_layouts : List Text
idbi_time_layouts =
    lit "2006-01-02T15:04:05.000Z"
    ∷ lit "2006-01-02T15:04:05.000"
    ∷ lit "2006-01-02T15:04:05Z"
    ∷ lit "2006-01-02T15:04:05"
    ∷ lit "2006-01-02"
    ∷ lit "02-01-2006"
    ∷ lit "02-Jan-2006"
    ∷ []

-- `case "", "NULL", "null"`
is_absent : Text → Bool
is_absent s = is_empty s || text_eq s (lit "NULL") || text_eq s (lit "null")

first_layout : (Text → Option ℕ) → List Text → Option ℕ
first_layout read [] = none
first_layout read (l ∷ rest) = elim (read l) [ none ↦ first_layout read rest | some t ↦ some t ]

-- `ParseTime`
unfoldable pub parse_time : Parser → Text → Option ℕ
unfolding is_absent first_layout
parse_time p given =
    let s = trim_space given in
    if is_absent s then some 0 else first_layout (λ l. p.parse_layout l s) idbi_time_layouts

-- `MustParseTime`
unfoldable pub must_parse_time : Parser → Text → ℕ
unfolding parse_time
must_parse_time p s = elim (parse_time p s) [ none ↦ 0 | some t ↦ t ]

-- `ParseAmount`
unfoldable pub parse_amount : Parser → Text → Option ℕ
unfolding is_absent
parse_amount p given =
    let s = trim_space given in
    if is_absent s then some 0 else p.parse_float (select (λ c. not (c == b',')) s)

abbrev amount_or_zero : Option ℕ → ℕ
amount_or_zero none = 0
amount_or_zero (some f) = f

-- `txnType`
unfoldable pub txn_type : Text → Text
txn_type code =
    let c = to_upper (trim_space code) in
    if text_eq c (lit "C") || text_eq c (lit "CREDIT") || text_eq c (lit "CR")
    then lit "CREDIT"
    else lit "DEBIT"

-- `firstNonEmpty`
unfoldable pub first_present : List Text → Text
first_present [] = []
first_present (s ∷ rest) =
    if not (is_empty (trim_space s)) && not (text_eq s (lit "NULL")) then s else first_present rest

-- `containsAny`
unfoldable pub contains_any : Text → List Text → Bool
contains_any s [] = false
contains_any s (sub ∷ rest) = elim (index s sub) [ some i ↦ true | none ↦ contains_any s rest ]

-- A list of words, as the source writes them: separated by commas.
abbrev any_of : List String → List Text
any_of = map lit

-- The cases of `Categorise`, in order.
unfoldable pub buckets : List (List Text × Text)
buckets =
    (
      any_of (
          "swiggy" ∷ "zomato" ∷ "restaurant" ∷ "cafe" ∷ "food" ∷ "eatery" ∷ "dominos" ∷ "mcdonald"
          ∷ []),
      lit "Food & Dining",
    )
    ∷ (
      any_of (
          "uber" ∷ "ola" ∷ "rapido" ∷ "irctc" ∷ "petrol" ∷ "fuel" ∷ "metro" ∷ "fastag" ∷ "toll"
          ∷ []),
      lit "Transport",
    )
    ∷ (
      any_of (
          "amazon" ∷ "flipkart" ∷ "myntra" ∷ "ajio" ∷ "shopping" ∷ "retail" ∷ "mall" ∷ "store"
          ∷ []),
      lit "Shopping",
    )
    ∷ (
      any_of (
          "electricity" ∷ "water bill" ∷ "gas bill" ∷ "broadband" ∷ "recharge" ∷ "dth" ∷ "bill pay"
          ∷ "sms charges" ∷ "acct charges" ∷ "account charges" ∷ []),
      lit "Bills & Utilities",
    )
    ∷ (any_of ("rent" ∷ "maintenance" ∷ "society" ∷ []), lit "Rent & Housing")
    ∷ (any_of ("salary" ∷ "sal cr" ∷ "payroll" ∷ []), lit "Income")
    ∷ (any_of ("sip" ∷ "mutual fund" ∷ "zerodha" ∷ "groww" ∷ "invest" ∷ []), lit "Investments")
    ∷ (
      any_of ("pharma" ∷ "hospital" ∷ "medical" ∷ "apollo" ∷ "clinic" ∷ "chemist" ∷ []),
      lit "Health",
    )
    ∷ (
      any_of ("netflix" ∷ "spotify" ∷ "hotstar" ∷ "prime" ∷ "subscription" ∷ []),
      lit "Entertainment",
    )
    ∷ (any_of ("atm" ∷ "cash withdrawal" ∷ "cash wdl" ∷ []), lit "Cash")
    ∷ (
      any_of ("upi" ∷ "imps" ∷ "neft" ∷ "rtgs" ∷ "transfer" ∷ "to transfer" ∷ "by transfer" ∷ []),
      lit "Transfers",
    )
    ∷ []

unfoldable pub bucket_of : Text → List (List Text × Text) → Text
unfolding contains_any
bucket_of n [] = lit "Other"
bucket_of n ((words, category) ∷ rest) = if contains_any n words then category else bucket_of n rest

-- `Categorise`
unfoldable pub categorise : Text → Text
unfolding bucket_of buckets
categorise narration = bucket_of (to_lower narration) buckets

-- A row of `FullStatementSpendRows`.
unfoldable pub statement_row : Parser → Text → StatementTxn → SpendRow
unfolding must_parse_time parse_amount txn_type first_present categorise
statement_row p acct_id r =
    let merchant = trim_space r.txn_desc in
    record {
      external_id = r.txn_id;
      account_ref = acct_id;
      amount = amount_or_zero (parse_amount p r.txn_amt.amount_value);
      kind = txn_type r.txn_type_code;
      category = categorise merchant;
      merchant = merchant;
      occurred_at =
          must_parse_time p (first_present (r.txn_date ∷ r.value_date ∷ r.pstd_date ∷ []));
    }

-- `FullStatementSpendRows`
unfoldable pub full_statement_spend_rows : Parser → Text → FullStatement → List SpendRow
unfolding statement_row
full_statement_spend_rows p acct_id resp = map (statement_row p acct_id) resp.transaction_details

-- `AAStatementSpendRows`
unfoldable pub aggregator_row : Parser → Text → AggregatorTxn → SpendRow
unfolding must_parse_time parse_amount txn_type first_present categorise
aggregator_row p ref r =
    let merchant = trim_space r.narration in
    record {
      external_id = r.txn_id;
      account_ref = ref;
      amount = amount_or_zero (parse_amount p r.amount);
      kind = txn_type r.code;
      category = categorise (trim_space (r.mode ++ lit " " ++ merchant));
      merchant = merchant;
      occurred_at = must_parse_time p (first_present (r.transaction_timestamp ∷ r.value_date ∷ []));
    }

-- `AAStatementAllSpendRows`
unfoldable pub aggregator_spend_rows : Parser → List StatementAccount → List SpendRow
unfolding aggregator_row
aggregator_spend_rows p [] = []
aggregator_spend_rows p (acc ∷ rest) =
    map (aggregator_row p acc.link_reference_number) acc.transactions
    ++ aggregator_spend_rows p rest
