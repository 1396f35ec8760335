-- ===== src/Json/Running.antt =====
-- The definitions that a run of the scanner unfolds, under one name.
use uidentity.Base.{eq_bytes, find_after, split_first, strip, is_space}
use uidentity.Json.Skip.{
  skip_ws, skip_json_string, skip_string_body, eat, skip_byte, skip_scalar, skip_key, skip_entries,
  skip_json_value,
}
use uidentity.Json.Strings.{
  split_last, unescape_byte, unescape_body, parse_json_string, split_token, split_ws,
  contains_string, append_unique,
}
use uidentity.Json.Integers.{stoi, stoll, read_signed}
use uidentity.Json.Extract.{
  between, search_value, extract_json_value, extract_json_string, extract_json_int,
  extract_json_int64, extract_json_bool, read_bool, opened_by, extract_json_object,
  extract_json_array,
}
use uidentity.Json.Arrays.{
  at_end, split_elements, is_bracketed, split_json_array_elements, parsed_strings,
  extract_json_string_array,
}

unfoldable pub json_code : Unit {0}
unfolding eq_bytes find_after split_first strip is_space skip_ws skip_json_string skip_string_body
    eat skip_byte skip_scalar skip_key skip_entries skip_json_value split_last unescape_byte
    unescape_body parse_json_string split_token split_ws contains_string append_unique stoi stoll
    read_signed between search_value extract_json_value extract_json_string extract_json_int
    extract_json_int64 extract_json_bool read_bool opened_by extract_json_object extract_json_array
    at_end split_elements is_bracketed split_json_array_elements parsed_strings
    extract_json_string_array
json_code = tt
