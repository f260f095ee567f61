-- ===== src/Scraper.antt =====
-- internal/scraper/pais_scraper.go: the reading of the CSV of draws and of the page of prizes. A text
-- is the list of its code points, and an int a word of 64 bits. The patterns of regexp, time.Parse, the
-- CSV reader and the HTML parser are parameters; a request is left out, but for its response. The times
-- CreatedAt and UpdatedAt are arguments.
pub mod Record
pub mod Table
pub mod Prizes
pub mod Examples
use stat_tree_server.Base.{
  ℕ, zero, suc, ◌+◌, ◌-◌, ◌*◌, ◌%◌, Bool, true, false, not, ◌&&◌, ◌||◌, List, [], ◌∷◌, ◌++◌, Option,
  none, some, length, get_or, set, take, elem, ltb, leb, ◌==◌, if◌then◌else◌,
}
use stat_tree_server.Base.Sort.{keep}
use stat_tree_server.Base.Options.{◌>>=◌}
use stat_tree_server.Base.Texts.{Text, same_text}
use stat_tree_server.Models.{LotteryResult}

-- unicode.IsSpace
abbrev pub is_space : ℕ → Bool
is_space c =
    elem c (32 ∷ 133 ∷ 160 ∷ 5760 ∷ 8232 ∷ 8233 ∷ 8239 ∷ 8287 ∷ 12288 ∷ [])
    || (leb 9 c && leb c 13)
    || (leb 8192 c && leb c 8202)

unfoldable pub trim_left : Text → Text
trim_left [] = []
trim_left (c ∷ cs) = let rest = trim_left cs in if is_space c then rest else c ∷ cs

unfoldable pub trim_right : Text → Text
trim_right [] = []
trim_right (c ∷ cs) =
    let rest = trim_right cs in if is_space c && length rest == 0 then [] else c ∷ rest

-- strings.TrimSpace
unfoldable pub trim_space : Text → Text
unfolding trim_left trim_right
trim_space s = trim_right (trim_left s)

unfoldable pub digits_value : ℕ → Text → Option ℕ
digits_value n [] = some n
digits_value n (c ∷ cs) =
    let rest = digits_value (n * 10 + (c - 48)) cs in if leb 48 c && leb c 57 then rest else none

abbrev pub in_range : ℕ → ℕ → Option ℕ
in_range limit n = if leb n limit then some n else none

-- a number of digits, at most `limit`
unfoldable pub unsigned : ℕ → Text → Option ℕ
unfolding digits_value
unsigned limit [] = none
unsigned limit (c ∷ cs) = digits_value 0 (c ∷ cs) >>= in_range limit

-- strconv.Atoi
unfoldable pub atoi : Text → Option ℕ
unfolding unsigned
atoi [] = none
atoi (c ∷ cs) =
    if c == 45
    then (unsigned 9223372036854775808 cs >>= λ n.
        some ((18446744073709551616 - n) % 18446744073709551616))
    else if c == 43
    then unsigned 9223372036854775807 cs
    else unsigned 9223372036854775807 (c ∷ cs)

-- What parseRecord ends with; `panicked` is an index out of range.
pub data Parsed (A : Type 0) : Type 0 where
  parsed : A → Parsed A
  rejected panicked : Parsed A

abbrev pub on_value : {A B : Type 0} → Option A → (A → Parsed B) → Parsed B
on_value none f = rejected
on_value (some a) f = f a

-- `record[i]`
abbrev pub on_field : {A B : Type 0} → List A → ℕ → (A → Parsed B) → Parsed B
on_field [] i f = panicked
on_field (a ∷ fields) zero f = f a
on_field (a ∷ fields) (suc i) f = on_field fields i f

-- the loop over the six numbers
unfoldable pub six_numbers :
    {B : Type 0} → List Text → ℕ → ℕ → List ℕ → (List ℕ → Parsed B) → Parsed B
unfolding trim_space atoi
six_numbers fields i zero numbers f = f numbers
six_numbers fields i (suc n) numbers f = on_field fields (i + 2) λ field.
    on_value (atoi (trim_space field)) λ num. six_numbers fields (suc i) n (numbers ++ num ∷ []) f

module _ {F : Type 0} (parse_date : Text → Option ℕ) (now : ℕ) where
  unfoldable pub parse_record : List Text → Parsed (LotteryResult F)
  unfolding trim_space atoi six_numbers
  parse_record fields =
      if ltb (length fields) 8
      then rejected
      else on_field fields 0 λ number_field.
        on_value (atoi (trim_space number_field)) λ draw_number. on_field fields 1 λ date_field.
          on_value (parse_date (trim_space date_field)) λ draw_date.
            six_numbers fields 0 6 [] λ numbers. on_field fields 8 λ strong_field.
              on_value (atoi (trim_space strong_field)) λ strong. parsed (record {
                id = 0;
                draw_number = draw_number;
                draw_date = draw_date;
                numbers = numbers;
                strong = strong;
                lottery_type = "lotto";
                prize_amounts = [];
                created_at = now;
                updated_at = now;
              })

  -- what is done with a record of the file, and the rest of the loop
  abbrev pub with_record :
      Parsed (LotteryResult F) → Parsed (List (LotteryResult F)) → Parsed (List (LotteryResult F))
  with_record panicked rest = panicked
  with_record rejected rest = rest
  with_record (parsed d) panicked = panicked
  with_record (parsed d) rejected = rejected
  with_record (parsed d) (parsed results) = parsed (d ∷ results)

  -- the loop of parseCSV over what the reader gives, where `none` is an error; `rejected` is an error
  unfoldable pub csv_loop : List (Option (List Text)) → Parsed (List (LotteryResult F))
  unfolding parse_record
  csv_loop [] = parsed []
  csv_loop (none ∷ lines) = rejected
  csv_loop (some fields ∷ lines) = with_record (parse_record fields) (csv_loop lines)

  unfoldable pub parse_csv : List (Option (List Text)) → Parsed (List (LotteryResult F))
  unfolding csv_loop
  parse_csv [] = parsed []
  parse_csv (none ∷ lines) = rejected
  parse_csv (some header ∷ lines) = csv_loop lines

  -- FetchLotteryData, on the response to its request: the status and what the CSV reader gives
  unfoldable pub fetch_lottery_data :
      Option (ℕ × List (Option (List Text))) → Parsed (List (LotteryResult F))
  unfolding parse_csv
  fetch_lottery_data none = rejected
  fetch_lottery_data (some (status, lines)) = if status == 200 then parse_csv lines else rejected

-- The patterns: FindStringSubmatch, with the groups that the code reads.
pub record Patterns : Type 0 where
  pub tier_label : Text → Option (Text × Bool)
  pub winners : Text → Option Text
  pub prize : Text → Option Text
  pub first_prize : Text → Option Text
  pub second_prize : Text → Option Text

-- html.Node: an element with its attributes, a text, or another node (the document, a comment).
mutual
  pub data HtmlNode : Type 0 where
    element : List (Text × Text) → HtmlNodes → HtmlNode
    text_node : Text → HtmlNode
    other_node : HtmlNodes → HtmlNode

  pub data HtmlNodes : Type 0 where
    no_nodes : HtmlNodes
    and_node : HtmlNode → HtmlNodes → HtmlNodes

-- "aria-label"
abbrev pub aria_label : Text
aria_label = 97 ∷ 114 ∷ 105 ∷ 97 ∷ 45 ∷ 108 ∷ 97 ∷ 98 ∷ 101 ∷ 108 ∷ []

unfoldable pub label_values : List (Text × Text) → List Text
label_values [] = []
label_values ((key, val) ∷ attrs) =
    let rest = label_values attrs in if same_text key aria_label then val ∷ rest else rest

unfoldable mutual
  unfolding label_values

  pub aria_labels : HtmlNode → List Text
  aria_labels (element attrs nodes) = label_values attrs ++ aria_labels_all nodes
  aria_labels (text_node s) = []
  aria_labels (other_node nodes) = aria_labels_all nodes

  pub aria_labels_all : HtmlNodes → List Text
  aria_labels_all no_nodes = []
  aria_labels_all (and_node n nodes) = aria_labels n ++ aria_labels_all nodes

unfoldable mutual
  pub text_content : HtmlNode → Text
  text_content (element attrs nodes) = text_content_all nodes
  text_content (text_node s) = s
  text_content (other_node nodes) = text_content_all nodes

  pub text_content_all : HtmlNodes → Text
  text_content_all no_nodes = []
  text_content_all (and_node n nodes) = text_content n ++ text_content_all nodes

-- the switch of tierLabelToIndex; `none` is -1
abbrev pub tier_index : ℕ → Bool → Option ℕ
tier_index n strong =
    if n == 6
    then some (if strong then 0 else 1)
    else if n == 5
    then some (if strong then 2 else 3)
    else if n == 4
    then some (if strong then 4 else 5)
    else if n == 3
    then some (if strong then 6 else 7)
    else none

unfoldable pub tier_label_to_index : Text → Bool → Option ℕ
unfolding atoi
tier_label_to_index num strong = atoi num >>= λ n. tier_index n strong

-- `n, err := strconv.Atoi(…)`, and 0 after an error
abbrev pub or_zero : Option ℕ → ℕ
or_zero none = 0
or_zero (some n) = n

unfoldable pub parse_hebrew_number : Text → ℕ
unfolding trim_space atoi
parse_hebrew_number s = or_zero (atoi (trim_space (keep (λ c. not (c == 44)) s)))

abbrev pub parse_amount : Option Text → ℕ
parse_amount none = 0
parse_amount (some s) = parse_hebrew_number s
