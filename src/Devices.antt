-- ===== src/Devices.antt =====
-- The serial unit (SSU) of src/walker.c and the devices behind it: accelerometer, EEPROM and LCD.
-- runNextInstruction calls them in its clock loop, every fourth cycle.
pub mod Status
pub mod Accel
pub mod Eeprom
pub mod Lcd
pub mod Ssu
pub mod Protocol
