-- ===== src/Calendar/Tests.antt =====
-- Runs of lib/ecal.cpp and etime.cpp on single times, and examples of the theorems.
use c_cpp_sandbox.Common.{◌*◌, true, none, some, [], ◌≡◌, refl, arith, pos, negsuc}
use c_cpp_sandbox.EStream.{EStream, got}
use c_cpp_sandbox.EStream.Memory.{Holds}
use c_cpp_sandbox.Calendar.{seconds_per_hour, get_num_leap_years, get_zoned_epoch_time}
use c_cpp_sandbox.Calendar.Fields.{Fields, fields_of_epoch}
use c_cpp_sandbox.Calendar.Years.{leaps_of_years, get_num_leap_years-leaps_of_years}
use c_cpp_sandbox.Calendar.Shows.{Shows, fields_of_epoch-Shows}
use c_cpp_sandbox.Calendar.Parse.{
  year_seconds, offset_seconds, int16, iso8601, get_epoch_from_formatted_date_time,
}
use c_cpp_sandbox.Calendar.Parts.{iso8601_text}
use c_cpp_sandbox.Calendar.RoundTrip.{get_epoch_from_formatted_date_time-fields_of_epoch}

-- From 2039 on the seconds of the years do not fit into `int`.
year_overflow : year_seconds 2039 ≡ none
unfolding year_seconds
year_overflow = refl

-- The offset 5:30 is taken for 530 hours.
half_hour_offset : get_zoned_epoch_time (pos 0) 0 (pos 530) ≡ (530 * seconds_per_hour, pos 530)
unfolding get_zoned_epoch_time
half_hour_offset = refl

-- Nine hours and seven minutes do not fit into the offset's 16 bits.
offset_wrap : int16 (offset_seconds true 9 7) ≡ negsuc 32715
unfolding int16 offset_seconds
offset_wrap = refl

get_num_leap_years-leaps_of_years_example : get_num_leap_years 1981 ≡ some (leaps_of_years 11)
get_num_leap_years-leaps_of_years_example = get_num_leap_years-leaps_of_years 11 (omega arith)

fields_of_epoch-Shows_example :
    (f : Fields) × (fields_of_epoch 68256000 ≡ some f) × Shows 68256000 f
fields_of_epoch-Shows_example = fields_of_epoch-Shows 68256000 (omega arith)

get_epoch_from_formatted_date_time-fields_of_epoch_example :
    (f : Fields) × (s : EStream) × (fields_of_epoch 68256000 ≡ some f)
    × (get_epoch_from_formatted_date_time (iso8601_text f) iso8601 ≡ got 68256000 s)
    × Holds s []
get_epoch_from_formatted_date_time-fields_of_epoch_example =
    get_epoch_from_formatted_date_time-fields_of_epoch 68256000 (omega arith)
